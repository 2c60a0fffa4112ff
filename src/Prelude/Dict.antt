-- ===== src/Prelude/Dict.antt =====
-- The runtime's `Map<string, V>`: entries in the order of insertion, at most one for a key.
use Prim.Native.Nat.{ℕ, ◌+◌, ◌≤◌, ◌<◌}
use mathlib.Core.Bool.{Bool, not}
use mathlib.Core.Path.{◌≡◌, refl, subst}
use mathlib.Core.Logic.{◌≢◌, ite, if_pos, if_neg}
use mathlib.Core.Option
use mathlib.Core.Option.{Option, none, some}
use mathlib.Core.List.{List, [], ◌∷◌}
use native.Mathlib.Omega.{arith}
use package.ros_webrtc_bridge.Prelude.Strings.{Text, text_discrete}
use package.ros_webrtc_bridge.Prelude.Tests.{if◌then◌else◌, if_cases}
use package.ros_webrtc_bridge.Prelude.Lists.{length}

module _ {ℓ} {V : Type ℓ} where
  -- `map.get(k)`
  unfoldable pub lookup : Text → List (Text × V) → Option V
  lookup k [] = none
  lookup k ((j, v) ∷ m) = ite (text_discrete j k) (some v) (lookup k m)

  -- `map.set(k, v)`: a key that is there keeps its place.
  unfoldable pub put : Text → V → List (Text × V) → List (Text × V)
  put k v [] = (k, v) ∷ []
  put k v ((j, w) ∷ m) = ite (text_discrete j k) ((k, v) ∷ m) ((j, w) ∷ put k v m)

  -- `map.delete(k)`
  unfoldable pub delete : Text → List (Text × V) → List (Text × V)
  delete k [] = []
  delete k ((j, w) ∷ m) = ite (text_discrete j k) (delete k m) ((j, w) ∷ delete k m)

  -- No key twice.
  abbrev pub Distinct : List (Text × V) → Type ℓ
  Distinct [] = Unit
  Distinct ((k, v) ∷ m) = (lookup k m ≡ none) × Distinct m

  abbrev pub values : List (Text × V) → List V
  values [] = []
  values ((k, v) ∷ m) = v ∷ values m

  -- A function on the values, for a loop that writes a field of each.
  unfoldable pub map_values : (V → V) → List (Text × V) → List (Text × V)
  map_values f [] = []
  map_values f ((k, v) ∷ m) = (k, f v) ∷ map_values f m

  -- The entries whose value passes, for a loop that deletes the others.
  unfoldable pub keep : (V → Bool) → List (Text × V) → List (Text × V)
  keep p [] = []
  keep p ((k, v) ∷ m) = if p v then (k, v) ∷ keep p m else keep p m

  abbrev pub AllValues {κ} : (V → Type κ) → List (Text × V) → Type κ
  AllValues P [] = Unit
  AllValues P ((k, v) ∷ m) = P v × AllValues P m

  abbrev pub total : (V → ℕ) → List (Text × V) → ℕ
  total f [] = 0
  total f ((k, v) ∷ m) = f v + total f m

module _ {ℓ} {V : Type ℓ} where
  pub lookup-put :
      (j k : Text) (v : V) (m : List (Text × V))
      → lookup j (put k v m) ≡ ite (text_discrete k j) (some v) (lookup j m)
  unfolding lookup put
  lookup-put j k v [] = refl
  lookup-put j k v ((i, w) ∷ m) = ground (arith, lookup-put j k v m)

  pub lookup-put_self : (k : Text) (v : V) (m : List (Text × V)) → lookup k (put k v m) ≡ some v
  lookup-put_self k v m = ground (arith, lookup-put k k v m)

  pub lookup-put_ne :
      (j k : Text) (v : V) (m : List (Text × V)) → k ≢ j → lookup j (put k v m) ≡ lookup j m
  lookup-put_ne j k v m h = ground (arith, lookup-put j k v m)

  pub lookup-delete :
      (j k : Text) (m : List (Text × V))
      → lookup j (delete k m) ≡ ite (text_discrete k j) none (lookup j m)
  unfolding lookup delete
  lookup-delete j k [] = ground arith
  lookup-delete j k ((i, w) ∷ m) = ground (arith, lookup-delete j k m)

  pub lookup-delete_ne :
      (j k : Text) (m : List (Text × V)) → k ≢ j → lookup j (delete k m) ≡ lookup j m
  lookup-delete_ne j k m h = ground (arith, lookup-delete j k m)

  pub lookup-delete_self : (k : Text) (m : List (Text × V)) → lookup k (delete k m) ≡ none
  lookup-delete_self k m = ground (arith, lookup-delete k k m)

  pub lookup-map_values :
      (f : V → V) (j : Text) (m : List (Text × V))
      → lookup j (map_values f m) ≡ Option.map f (lookup j m)
  unfolding lookup map_values
  lookup-map_values f j [] = refl
  lookup-map_values f j ((i, w) ∷ m) = ground (arith, lookup-map_values f j m)

  pub put-Distinct : (k : Text) (v : V) (m : List (Text × V)) → Distinct m → Distinct (put k v m)
  unfolding put lookup
  put-Distinct k v [] d = (refl, tt)
  put-Distinct k v ((i, w) ∷ m) d = ground (arith, put-Distinct k v m d.1, lookup-put i k v m)

  pub delete-Distinct : (k : Text) (m : List (Text × V)) → Distinct m → Distinct (delete k m)
  unfolding delete
  delete-Distinct k [] d = tt
  delete-Distinct k ((i, w) ∷ m) d = ground (arith, delete-Distinct k m d.1, lookup-delete i k m)

  pub map_values-Distinct :
      (f : V → V) (m : List (Text × V)) → Distinct m → Distinct (map_values f m)
  unfolding map_values
  map_values-Distinct f [] d = tt
  map_values-Distinct f ((i, w) ∷ m) d =
      ground (arith, map_values-Distinct f m d.1, lookup-map_values f i m)

  pub lookup-keep-none :
      (p : V → Bool) (j : Text) (m : List (Text × V))
      → lookup j m ≡ none
      → lookup j (keep p m) ≡ none
  unfolding lookup keep
  lookup-keep-none p j [] h = refl
  lookup-keep-none p j ((i, w) ∷ m) h = ground (arith, lookup-keep-none p j m)

  pub keep-Distinct : (p : V → Bool) (m : List (Text × V)) → Distinct m → Distinct (keep p m)
  unfolding keep
  keep-Distinct p [] d = tt
  keep-Distinct p ((i, w) ∷ m) d = ground (arith, keep-Distinct p m d.1, lookup-keep-none p i m)

  -- What `keep` leaves under a key: the value, if it passes.
  pub lookup-keep :
      (p : V → Bool) (j : Text) (m : List (Text × V))
      → Distinct m
      → lookup j (keep p m)
        ≡ elim (lookup j m) [ none ↦ none | some v ↦ if p v then some v else none ]
  unfolding lookup keep
  lookup-keep p j [] d = refl
  lookup-keep p j ((i, w) ∷ m) d = ground (arith, lookup-keep p j m d.1, lookup-keep-none p i m)

  pub length-put_new :
      (k : Text) (v : V) (m : List (Text × V))
      → lookup k m ≡ none
      → length (put k v m) ≡ length m + 1
  unfolding lookup put
  length-put_new k v [] h = omega arith
  length-put_new k v ((i, w) ∷ m) h = ground (arith, length-put_new k v m)

  pub length-put_old :
      (k : Text) (v w : V) (m : List (Text × V))
      → lookup k m ≡ some w
      → length (put k v m) ≡ length m
  unfolding lookup put
  length-put_old k v w [] h = cc
  length-put_old k v w ((i, u) ∷ m) h = ground (arith, length-put_old k v w m)

  pub length-put-le : (k : Text) (v : V) (m : List (Text × V)) → length (put k v m) ≤ length m + 1
  unfolding put
  length-put-le k v [] = omega arith
  length-put-le k v ((i, w) ∷ m) = ground (arith, length-put-le k v m)

  pub length-delete-le : (k : Text) (m : List (Text × V)) → length (delete k m) ≤ length m
  unfolding delete
  length-delete-le k [] = omega arith
  length-delete-le k ((i, w) ∷ m) = ground (arith, length-delete-le k m)

  -- To delete a key that is there shortens the map.
  pub length-delete-lt :
      (k : Text) (v : V) (m : List (Text × V))
      → lookup k m ≡ some v
      → length (delete k m) < length m
  unfolding delete lookup
  length-delete-lt k v [] e = absurd (cc)
  length-delete-lt k v ((i, w) ∷ m) e = ground (arith, length-delete-lt k v m, length-delete-le k m)

  pub length-keep-le : (p : V → Bool) (m : List (Text × V)) → length (keep p m) ≤ length m
  unfolding keep
  length-keep-le p [] = omega arith
  length-keep-le p ((i, w) ∷ m) = ground (arith, length-keep-le p m)

  pub length-map_values : (f : V → V) (m : List (Text × V)) → length (map_values f m) ≡ length m
  unfolding map_values
  length-map_values f [] = refl
  length-map_values f ((i, w) ∷ m) = omega (arith, length-map_values f m)

module _ {ℓ} {V : Type ℓ} (f : V → ℕ) where
  pub total-put_new :
      (k : Text) (v : V) (m : List (Text × V))
      → lookup k m ≡ none
      → total f (put k v m) ≡ total f m + f v
  unfolding lookup put
  total-put_new k v [] h = omega arith
  total-put_new k v ((i, w) ∷ m) h = ground (arith, total-put_new k v m)

  pub total-put_old :
      (k : Text) (v w : V) (m : List (Text × V))
      → lookup k m ≡ some w
      → total f (put k v m) + f w ≡ total f m + f v
  unfolding lookup put
  total-put_old k v w [] h = cc
  total-put_old k v w ((i, u) ∷ m) h = ground (arith, total-put_old k v w m)

  delete_absent : (k : Text) (m : List (Text × V)) → lookup k m ≡ none → delete k m ≡ m
  unfolding lookup delete
  delete_absent k [] h = refl
  delete_absent k ((i, w) ∷ m) h = ground (arith, delete_absent k m)

  pub total-delete :
      (k : Text) (w : V) (m : List (Text × V))
      → Distinct m
      → lookup k m ≡ some w
      → total f (delete k m) + f w ≡ total f m
  unfolding lookup delete
  total-delete k w [] d h = cc
  total-delete k w ((i, u) ∷ m) d h = ground (arith, total-delete k w m d.1, delete_absent k m)

module _ {ℓ} {V : Type ℓ} (f : V → ℕ) (p q : V → Bool) (split : (v : V) → q v ≡ not (p v)) where
  -- What passes and what does not are all there is.
  pub total-keep : (m : List (Text × V)) → total f (keep p m) + total f (keep q m) ≡ total f m
  unfolding keep
  total-keep [] = omega arith
  total-keep ((k, v) ∷ m) = ground (arith, split v, total-keep m)

module _ {ℓ κ} {V : Type ℓ} (P : V → Type κ) where
  pub AllValues-keep : (p : V → Bool) (m : List (Text × V)) → AllValues P m → AllValues P (keep p m)
  unfolding keep
  AllValues-keep p [] a = tt
  AllValues-keep p ((k, v) ∷ m) a =
      if_cases (AllValues P) (p v) (λ _. (a.0, AllValues-keep p m a.1))
        (λ _. AllValues-keep p m a.1)

  pub AllValues-put :
      (k : Text) (v : V) (m : List (Text × V)) → P v → AllValues P m → AllValues P (put k v m)
  unfolding put
  AllValues-put k v [] h a = (h, tt)
  AllValues-put k v ((i, w) ∷ m) h a = elim (text_discrete i k) [
    | yes p ↦ rw (if_pos _ p) (h, a.1)
    | no p ↦ rw (if_neg _ p) (a.0, AllValues-put k v m h a.1)
  ]

  pub AllValues-delete : (k : Text) (m : List (Text × V)) → AllValues P m → AllValues P (delete k m)
  unfolding delete
  AllValues-delete k [] a = tt
  AllValues-delete k ((i, w) ∷ m) a = elim (text_discrete i k) [
    | yes p ↦ rw (if_pos _ p) (AllValues-delete k m a.1)
    | no p ↦ rw (if_neg _ p) (a.0, AllValues-delete k m a.1)
  ]

  pub AllValues-lookup :
      (k : Text) (v : V) (m : List (Text × V)) → lookup k m ≡ some v → AllValues P m → P v
  unfolding lookup
  AllValues-lookup k v [] e a = absurd (cc)
  AllValues-lookup k v ((i, w) ∷ m) e a = elim (text_discrete i k) [
    | yes p ↦ let same : w ≡ v = ground arith in subst P same a.0
    | no p ↦ AllValues-lookup k v m (ground arith) a.1
  ]
