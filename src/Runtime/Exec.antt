-- ===== src/Runtime/Exec.antt =====
-- Methods that write an object and may throw: what was written before a throw stays written.
use mathlib.Core.Path.{◌≡◌, refl, sym, subst}
use package.ros_webrtc_bridge.Prelude.{
  Bool, true, false, Option, none, some, if◌then◌else◌, if_cases,
}
use package.ros_webrtc_bridge.Runtime.Outcome.{Error, Outcome, ok, throw, require}

abbrev pub Exec {ℓ} : Type ℓ → Type ℓ → Type ℓ
Exec S A = S → Outcome A × S

module _ {ℓ} {S A : Type ℓ} where
  abbrev pub pure : A → Exec S A
  pure a s = (ok a, s)

  abbrev pub lift : Outcome A → Exec S A
  lift r s = (r, s)

  abbrev pub gets : (S → A) → Exec S A
  gets f s = (ok (f s), s)

module _ {S : Type 0} where
  abbrev pub ensure : Bool → Error → Exec S (Unit {0})
  ensure b e s = (require b e, s)

  abbrev pub modify : (S → S) → Exec S (Unit {0})
  modify f s = (ok tt, f s)

module _ {ℓ} {S A B : Type ℓ} where
  unfoldable pub continue : Outcome A × S → (A → Exec S B) → Outcome B × S
  continue (ok a, s) f = f a s
  continue (throw e, s) f = (throw e, s)

  infixl 5 ◌>>=◌ ◌>>◌
  abbrev pub ◌>>=◌ : Exec S A → (A → Exec S B) → Exec S B
  ◌>>=◌ m f s = continue (m s) f

  abbrev pub ◌>>◌ : Exec S A → Exec S B → Exec S B
  ◌>>◌ m k s = continue (m s) (λ _. k)

unfoldable pub recover {ℓ} : {S A : Type ℓ} → Outcome A × S → (Error → Exec S A) → Outcome A × S
recover (ok a, s) handler = (ok a, s)
recover (throw e, s) handler = handler e s

-- `try { ... } catch { ... }`
abbrev pub attempt {ℓ} : {S A : Type ℓ} → Exec S A → (Error → Exec S A) → Exec S A
attempt m handler s = recover (m s) handler

-- A call that is followed by one thing where it returns and by another where it throws.
unfoldable pub settle {ℓ} :
    {S A B : Type ℓ} → Outcome A × S → (A → Exec S B) → (Error → Exec S B) → Outcome B × S
settle (ok a, s) f handler = f a s
settle (throw e, s) f handler = handler e s

-- A postcondition: `Q` of the result and the state where the call returns, `E` of the state where it
-- throws.
pub data Ensures {ℓ κ} {S A : Type ℓ} (E : S → Type κ) (Q : A → S → Type κ)
    : Outcome A × S → Type (ℓ ⊔ κ) where
  returned : {a : A} {s : S} → Q a s → Ensures E Q (ok a, s)
  threw : {e : Error} {s : S} → E s → Ensures E Q (throw e, s)

-- The same by recursion on the outcome.
abbrev Holds {ℓ κ} : {S A : Type ℓ} → (S → Type κ) → (A → S → Type κ) → Outcome A × S → Type κ
Holds E Q (ok a, s) = Q a s
Holds E Q (throw e, s) = E s

module _ {ℓ κ} {S A : Type ℓ} {E : S → Type κ} where
  pub Ensures-weaken :
      {Q Q' : A → S → Type κ} {r : Outcome A × S}
      → Ensures E Q r
      → ((a : A) (s : S) → Q a s → Q' a s)
      → Ensures E Q' r
  Ensures-weaken (returned h) f = returned (f _ _ h)
  Ensures-weaken (threw h) f = threw h

  pub Ensures-continue :
      {B : Type ℓ} {Q : A → S → Type κ} {Q' : B → S → Type κ} {f : A → Exec S B} {r : Outcome A × S}
      → Ensures E Q r
      → ((a : A) (s : S) → Q a s → Ensures E Q' (f a s))
      → Ensures E Q' (continue r f)
  unfolding continue
  Ensures-continue (returned h) k = k _ _ h
  Ensures-continue (threw h) k = threw h

  -- A part that throws or gives a value and writes nothing.
  pub Ensures-lift :
      {B : Type ℓ} {Q : B → S → Type κ} {s : S} (r : Outcome A) (f : A → Exec S B)
      → E s
      → ((a : A) → r ≡ ok a → Ensures E Q (f a s))
      → Ensures E Q (continue (r, s) f)
  unfolding continue
  Ensures-lift (ok a) f h k = k a refl
  Ensures-lift (throw e) f h k = threw h

  -- What holds in both cases holds of the state that the call leaves.
  pub Ensures-state :
      {Q : A → S → Type κ} {r : Outcome A × S}
      → Ensures E Q r
      → ((a : A) (s : S) → Q a s → E s)
      → E r.1
  Ensures-state (returned h) f = f _ _ h
  Ensures-state (threw h) f = h

  -- Another invariant, that of the throws included.
  pub Ensures-map :
      {Q : A → S → Type κ} {E' : S → Type κ} {Q' : A → S → Type κ} {r : Outcome A × S}
      → Ensures E Q r
      → ((s : S) → E s → E' s)
      → ((a : A) (s : S) → Q a s → Q' a s)
      → Ensures E' Q' r
  Ensures-map (returned h) e q = returned (q _ _ h)
  Ensures-map (threw h) e q = threw (e _ h)

  Ensures-Holds : {Q : A → S → Type κ} {r : Outcome A × S} → Ensures E Q r → Holds E Q r
  Ensures-Holds (returned h) = h
  Ensures-Holds (threw h) = h

  -- What holds of the state that is left, whether the call throws or returns.
  pub Ensures-any :
      {Q : A → S → Type κ} (r : Outcome A × S)
      → E r.1
      → ((a : A) → r.0 ≡ ok a → Q a r.1)
      → Ensures E Q r
  Ensures-any (ok a, s) h k = returned (k a refl)
  Ensures-any (throw e, s) h k = threw h

  -- A part that is known to return.
  pub Ensures-step :
      {B : Type ℓ} {Q : B → S → Type κ} (r : Outcome A × S) (f : A → Exec S B) (a : A)
      → r.0 ≡ ok a
      → Ensures E Q (f a r.1)
      → Ensures E Q (continue r f)
  unfolding continue
  Ensures-step {B} {Q} (o, s) f a e h = subst (λ x. Ensures E Q (continue (x, s) f)) (sym e) h

  -- Where a handler takes over from what a part's throws keep.
  pub Ensures-recover :
      {E' : S → Type κ} {Q : A → S → Type κ} {handler : Error → Exec S A} {r : Outcome A × S}
      → Ensures E Q r
      → ((e : Error) (s : S) → E s → Ensures E' Q (handler e s))
      → Ensures E' Q (recover r handler)
  unfolding recover
  Ensures-recover (returned h) k = returned h
  Ensures-recover (threw h) k = k _ _ h

  -- What is known where the call is seen to return.
  pub Ensures-ok :
      {Q : A → S → Type κ} {r : Outcome A × S} (a : A) (s : S)
      → Ensures E Q r
      → r ≡ (ok a, s)
      → Q a s
  Ensures-ok {Q} a s e h = subst (Holds E Q) h (Ensures-Holds e)

-- Two continuations that agree where the first part can lead.
pub continue-agree :
    {S A B : Type 0} {E : S → Type 0} {Q : A → S → Type 0} {m : Outcome A × S} (f g : A → Exec S B)
    → Ensures E Q m
    → ((a : A) (s : S) → Q a s → f a s ≡ g a s)
    → continue m f ≡ continue m g
unfolding continue
continue-agree f g (returned h) same = same _ _ h
continue-agree f g (threw h) same = refl

-- An invariant that a call keeps, whether it throws or returns.
abbrev pub Keeps {ℓ κ} : {S A : Type ℓ} → (S → Type κ) → Exec S A → Type (ℓ ⊔ κ)
Keeps {A} I m = (s : _) → I s → Ensures I (λ (_ : A). I) (m s)

module _ {ℓ κ} {S : Type ℓ} {I : S → Type κ} where
  pub Keeps-then :
      {A B : Type ℓ} (m : Exec S A) (f : A → Exec S B)
      → Keeps I m
      → ((a : A) → Keeps I (f a))
      → Keeps I (λ s. continue (m s) f)
  Keeps-then m f h k s i = Ensures-continue (h s i) (λ a s'. k a s')

  pub Keeps-lift : {A : Type ℓ} (r : Outcome A) → Keeps I (lift r)
  Keeps-lift (ok a) s i = returned i
  Keeps-lift (throw e) s i = threw i

  pub Keeps-attempt :
      {A : Type ℓ} (m : Exec S A) (handler : Error → Exec S A)
      → Keeps I m
      → ((e : Error) → Keeps I (handler e))
      → Keeps I (attempt m handler)
  unfolding recover
  Keeps-attempt {A} m handler h k s i = caught (h s i)
    where
      caught : {r : Outcome A × S} → Ensures I (λ _. I) r → Ensures I (λ _. I) (recover r handler)
      caught (returned j) = returned j
      caught (threw j) = k _ _ j

  pub Keeps-settle :
      {A B : Type ℓ} (m : Exec S A) (f : A → Exec S B) (handler : Error → Exec S B)
      → Keeps I m
      → ((a : A) → Keeps I (f a))
      → ((e : Error) → Keeps I (handler e))
      → Keeps I (λ s. settle (m s) f handler)
  unfolding settle
  Keeps-settle {A} {B} m f handler h k l s i = settled (h s i)
    where
      settled :
          {r : Outcome A × S} → Ensures I (λ _. I) r → Ensures I (λ (_ : B). I) (settle r f handler)
      settled (returned j) = k _ _ j
      settled (threw j) = l _ _ j

  pub Keeps-gets : {A : Type ℓ} (f : S → A) → Keeps I (gets f)
  Keeps-gets f s i = returned i

  -- Branches, each of which keeps the invariant.
  pub Keeps-Bool :
      {A : Type ℓ} (b : Bool) (m n : Exec S A)
      → Keeps I m
      → Keeps I n
      → Keeps I (elim b [ true ↦ m | false ↦ n ])
  Keeps-Bool true m n h k = h
  Keeps-Bool false m n h k = k

  pub Keeps-if :
      {A : Type ℓ} (b : S → Bool) (m n : Exec S A)
      → Keeps I m
      → Keeps I n
      → Keeps I (λ s. if b s then m s else n s)
  Keeps-if {A} b m n h k s i = if_cases (Ensures I (λ (_ : A). I)) (b s) (λ _. h s i) (λ _. k s i)

  pub Keeps-cond :
      {A : Type ℓ} (b : Bool) (m n : Exec S A)
      → Keeps I m
      → Keeps I n
      → Keeps I (if b then m else n)
  Keeps-cond true m n h k = h
  Keeps-cond false m n h k = k

  pub Keeps-Option :
      {A B : Type ℓ} (o : Option B) (m : Exec S A) (f : B → Exec S A)
      → Keeps I m
      → ((b : B) → Keeps I (f b))
      → Keeps I (elim o [ none ↦ m | some b ↦ f b ])
  Keeps-Option none m f h k = h
  Keeps-Option (some b) m f h k = k b

  pub Keeps-Outcome :
      {A B : Type ℓ} (o : Outcome B) (f : B → Exec S A) (g : Error → Exec S A)
      → ((b : B) → Keeps I (f b))
      → ((e : Error) → Keeps I (g e))
      → Keeps I (elim o [ ok b ↦ f b | throw e ↦ g e ])
  Keeps-Outcome (ok b) f g h k = h b
  Keeps-Outcome (throw e) f g h k = k e

  pub Keeps-pure : {A : Type ℓ} (a : A) → Keeps I (pure a)
  Keeps-pure a s i = returned i
