-- ===== src/Router/Video/Slots.antt =====
-- video.ts: slots are never lost, shared or moved to another track, and the flags of a binding follow the
-- media plane.
use package.ros_webrtc_bridge.Prelude.{
  ℕ, ◌+◌, ◌≡◌, ◌≢◌, refl, sym, ap, ◌∙◌, Bool, true, false, none, some, List, [], ◌∷◌, ◌==◌,
  Bool-cases, Option-cases, sum_of, Text, text_discrete, inl, inr, arith,
}
use mathlib.Core.Path.{subst}
use package.ros_webrtc_bridge.Prelude.Dict.{
  lookup, put, total, Distinct, put-Distinct, lookup-put_self, lookup-put_ne, total-put_new,
  total-put_old,
}
use package.ros_webrtc_bridge.Runtime.Outcome.{Outcome, ok}
use package.ros_webrtc_bridge.Runtime.Exec.{Ensures, returned, threw}
use package.ros_webrtc_bridge.Router.Video.{
  VideoSlot, Binding, VideoAccess, VideoRouter, take_first, write, new_binding, profile_idc,
}
use package.ros_webrtc_bridge.Router.Video.Plane.{MediaPlane}

module _ {M : Type 0} where
  -- A track that is bound stays bound to its slot.
  abbrev pub Keeps : VideoRouter M → VideoRouter M → Type 0
  Keeps r r' =
      (t : Text) (b : Binding)
      → lookup t r.bound ≡ some b
      → (b' : Binding) × (lookup t r'.bound ≡ some b') × (b'.slot ≡ b.slot)

  pub Keeps-trans : (p q r : VideoRouter M) → Keeps p q → Keeps q r → Keeps p r
  Keeps-trans p q r k l t b e =
      let (b', found, same) = k t b e in
      let (b'', found', same') = l t b' found in (b'', found', same' ∙ same)

-- The slot found passes, and with the others it makes up all there were.
pub take_first_found :
    (p : VideoSlot → Bool) (slots : List VideoSlot) (s : VideoSlot) (rest : List VideoSlot)
    → take_first p slots ≡ some (s, rest)
    → (p s ≡ true) × ((f : VideoSlot → ℕ) → f s + sum_of f rest ≡ sum_of f slots)
unfolding take_first
take_first_found p [] s rest e = absurd (cc)
take_first_found p (x ∷ xs) s rest e = elim (Bool-cases (p x)) [
  | inl passes ↦
      let same : (x ≡ s) × (xs ≡ rest) = ground arith in (cc, λ f. rw (same.0, same.1) (refl))
  | inr fails ↦ elim (Option-cases (take_first p xs)) [
    | inl none_left ↦ absurd (ground arith)
    | inr ((y, ys), found) ↦
        let (passes, sums) = take_first_found p xs y ys found in
        let same : (y ≡ s) × (x ∷ ys ≡ rest) = ground arith in
        (rw (sym same.0) passes, λ f. rw (sym same.0, sym same.1) (omega (arith, sums f)))
  ]
]

abbrev pub unwatched : VideoSlot → Binding
unwatched s = record { slot = s; watching = false; attached = false }

-- What `bind` binds: the first free slot of the track's profile.
new_binding_found :
    {M : Type 0} (access : VideoAccess M) (track : Text) (r r' : VideoRouter M) (entry : Binding)
    → new_binding access track r ≡ ok (entry, r')
    → (s : VideoSlot) × (rest : List VideoSlot) × (take_first
          (λ slot. profile_idc slot.profile_level_id == access.track_profile track)
          r.free
        ≡ some (s, rest))
      × (entry ≡ unwatched s)
      × (r' ≡ record r { bound = put track (unwatched s) r.bound; free = rest })
unfolding new_binding
new_binding_found access track r r' entry e =
    elim (Option-cases (
      take_first (λ slot. profile_idc slot.profile_level_id == access.track_profile track)
        r.free)) [
          | inl missing ↦ absurd (ground arith)
          | inr ((s, rest), found) ↦ (s, rest, found, ground arith, ground arith)
        ]

module _ {M : Type 0} {access : VideoAccess M} (media : MediaPlane access)
    (slots : List VideoSlot) where
  pub record IsConsistent (r : VideoRouter M) : Type 0 where
    pub distinct : Distinct r.bound
    -- Every viewer in the plane is one of a binding that is attached.
    pub known :
        (t : Text)
        → media.holds t r.plane ≡ true
        → (b : Binding) × (lookup t r.bound ≡ some b) × (b.attached ≡ true)
    pub agree : (t : Text) (b : Binding) → lookup t r.bound ≡ some b → b.watching ≡ b.attached
    -- A slot carries a track of the profile that it was negotiated for.
    pub fitted :
        (t : Text) (b : Binding)
        → lookup t r.bound ≡ some b
        → profile_idc b.slot.profile_level_id ≡ access.track_profile t
    -- The slots bound and the free ones are the slots given, whatever is summed over them.
    pub conserved :
        (f : VideoSlot → ℕ)
        → total (λ (b : Binding). f b.slot) r.bound + sum_of f r.free ≡ sum_of f slots

  pub record Moves (r r' : VideoRouter M) : Type 0 where
    pub consistent : IsConsistent r'
    pub keeps : Keeps r r'

  pub Moves-trans : {p q r : VideoRouter M} → Moves p q → Moves q r → Moves p r
  Moves-trans {p} {q} {r} a b = record {
    consistent = b.consistent;
    keeps = Keeps-trans p q r a.keeps b.keeps;
  }

  pub Moves-refl : (r : VideoRouter M) → IsConsistent r → Moves r r
  Moves-refl r c = record { consistent = c; keeps = λ t b e. (b, e, refl) }

  -- What is ensured from a state that has been reached.
  pub Ensures-after :
      {A : Type 0} {r p : VideoRouter M} {Q : A → VideoRouter M → Type 0}
      {x : Outcome A × VideoRouter M}
      → Moves r p
      → Ensures (Moves p) Q x
      → Ensures (Moves r) Q x
  Ensures-after m (returned h) = returned h
  Ensures-after m (threw h) = threw (Moves-trans m h)

  -- The flags of a binding are written, and the plane has moved accordingly.
  pub write-Moves :
      (r r' : VideoRouter M) (track : Text) (entry : Binding) (on : Bool)
      → IsConsistent r
      → lookup track r.bound ≡ some entry
      → r'.bound ≡ (write track entry on r).bound
      → r'.free ≡ r.free
      → ((u : Text) → u ≢ track → media.holds u r'.plane ≡ true → media.holds u r.plane ≡ true)
      → (media.holds track r'.plane ≡ true → on ≡ true)
      → Moves r r'
  unfolding write
  write-Moves r r' track entry on c found bound free others this = record {
    consistent = record {
      distinct = rw bound (put-Distinct track _ r.bound c.distinct);
      known = λ u h. elim (text_discrete u track) [
        | yes p ↦ (written, here u p, this (subst (λ x. media.holds x r'.plane ≡ true) p h))
        | no p ↦ let (b, old, is) = c.known u (others u p h) in (b, there u p ∙ old, is)
      ];
      agree = λ u b h. elim (text_discrete u track) [
        | yes p ↦ let same : written ≡ b = cc (here u p) in rw (sym same) (refl)
        | no p ↦ c.agree u b (sym (there u p) ∙ h)
      ];
      fitted = λ u b h. elim (text_discrete u track) [
        | yes p ↦
            let same : written ≡ b = cc (here u p) in rw (sym same, p) (c.fitted track entry found)
        | no p ↦ c.fitted u b (sym (there u p) ∙ h)
      ];
      conserved = λ f.
          rw (bound, free)
            (omega (
              arith,
              total-put_old (λ (b : Binding). f b.slot) track (written) entry r.bound found,
              c.conserved f,
            ));
    };
    keeps = λ u b h. elim (text_discrete u track) [
      | yes p ↦ (written, here u p, let same : entry ≡ b = cc in rw (sym same) (refl))
      | no p ↦ (b, there u p ∙ h, refl)
    ];
  }
    where
      written : Binding
      written = record entry { watching = on; attached = on }

      here : (u : Text) → u ≡ track → lookup u r'.bound ≡ some written
      here u p =
          subst (λ x. lookup x r'.bound ≡ some written) (sym p)
            (ap (λ x. lookup track x) bound ∙ lookup-put_self track written r.bound)

      there : (u : Text) → u ≢ track → lookup u r'.bound ≡ lookup u r.bound
      there u p =
          ap (λ x. lookup u x) bound ∙ lookup-put_ne u track written r.bound (λ q. p (sym q))

  -- The plane has moved, and holds no viewer more.
  pub plane-Moves :
      (r : VideoRouter M) (m : M)
      → IsConsistent r
      → ((u : Text) → media.holds u m ≡ true → media.holds u r.plane ≡ true)
      → Moves r (record r { plane = m })
  plane-Moves r m c fewer = record {
    consistent = record {
      distinct = c.distinct;
      known = λ u h. c.known u (fewer u h);
      agree = c.agree;
      fitted = c.fitted;
      conserved = c.conserved;
    };
    keeps = λ t b e. (b, e, refl);
  }

  -- A free slot is bound to a track that had none.
  pub add-Moves :
      (track : Text) (r : VideoRouter M) (s : VideoSlot) (rest : List VideoSlot)
      → IsConsistent r
      → lookup track r.bound ≡ none
      → profile_idc s.profile_level_id ≡ access.track_profile track
      → ((f : VideoSlot → ℕ) → f s + sum_of f rest ≡ sum_of f r.free)
      → Moves r (record r { bound = put track (unwatched s) r.bound; free = rest })
  add-Moves track r s rest c fresh fits sums = record {
    consistent = record {
      distinct = put-Distinct track (unwatched s) r.bound c.distinct;
      known = λ u h. let (b, old, is) = c.known u h in (b, there u b old ∙ old, is);
      agree = λ u b h. elim (text_discrete track u) [
        | yes p ↦
            let same : unwatched s ≡ b =
              ground (arith, lookup-put_self track (unwatched s) r.bound) in
            rw (sym same) (refl)
        | no p ↦ c.agree u b (sym (lookup-put_ne u track (unwatched s) r.bound p) ∙ h)
      ];
      fitted = λ u b h. elim (text_discrete track u) [
        | yes p ↦
            let same : unwatched s ≡ b =
              ground (arith, lookup-put_self track (unwatched s) r.bound) in
            rw (sym same, sym p) fits
        | no p ↦ c.fitted u b (sym (lookup-put_ne u track (unwatched s) r.bound p) ∙ h)
      ];
      conserved = λ f. omega (
        arith,
        total-put_new (λ (b : Binding). f b.slot) track (unwatched s) r.bound fresh,
        c.conserved f,
        sums f,
      );
    };
    keeps = λ u b h. (b, there u b h ∙ h, refl);
  }
    where
      there :
          (u : Text) (b : Binding)
          → lookup u r.bound ≡ some b
          → lookup u (put track (unwatched s) r.bound) ≡ lookup u r.bound
      there u b h = lookup-put_ne u track (unwatched s) r.bound (λ p. absurd (cc))

  pub new_binding-Moves :
      (track : Text) (r r' : VideoRouter M) (entry : Binding)
      → IsConsistent r
      → lookup track r.bound ≡ none
      → new_binding access track r ≡ ok (entry, r')
      → Moves r r'
        × (lookup track r'.bound ≡ some entry)
        × (r'.plane ≡ r.plane)
        × (entry.watching ≡ false)
  new_binding-Moves track r r' entry c fresh e =
      let (s, rest, found, same, same') = new_binding_found access track r r' entry e in
      let (passes, sums) = take_first_found _ r.free s rest found in
      rw (same, same')
        (
          add-Moves track r s rest c fresh (ground arith) sums,
          lookup-put_self track (unwatched s) r.bound,
          refl,
          refl,
        )
