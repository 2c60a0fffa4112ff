-- ===== src/Router/Video/Operations.antt =====
-- video.ts: what each operation does to the slots, the flags and the media plane.
use package.ros_webrtc_bridge.Prelude.{
  ◌≡◌, refl, true, false, none, some, List, [], ◌∷◌, Bool-cases, Option-cases, Text, text_discrete,
  inl, inr, arith,
}
use package.ros_webrtc_bridge.Prelude.Dict.{lookup}
use package.ros_webrtc_bridge.Runtime.Outcome.{ok, throw, type_error}
use package.ros_webrtc_bridge.Runtime.Exec.{
  continue, Ensures, returned, threw, Ensures-continue, Ensures-any, Ensures-weaken,
}
use package.ros_webrtc_bridge.Router.Protocol.{includes}
use package.ros_webrtc_bridge.Router.Video.{
  VideoSlot, Binding, VideoAccess, VideoRouter, VideoState, failed, write, on_plane, viewer_state,
  emit, tell, starting, active, idle, release, release_all,
}
use package.ros_webrtc_bridge.Router.Video.Plane.{MediaPlane}
use package.ros_webrtc_bridge.Router.Video.Slots.{
  IsConsistent, Moves, Moves-trans, Moves-refl, write-Moves, Ensures-after,
}

module _ {M : Type 0} {access : VideoAccess M} (media : MediaPlane access)
    (slots : List VideoSlot) where
  -- No viewer more is in the plane.
  abbrev pub Fewer : VideoRouter M → VideoRouter M → Type 0
  Fewer r r' = (u : Text) → media.holds u r'.plane ≡ true → media.holds u r.plane ≡ true

  pub record Released (r : VideoRouter M) (track : Text) (r' : VideoRouter M) : Type 0 where
    pub moves : Moves media slots r r'
    pub gone : media.holds track r'.plane ≡ false
    pub fewer : Fewer r r'

  -- What the plane does to a track that is detached, or to one that is not attached.
  detached :
      (track : Text) (r r' : VideoRouter M) (entry : Binding)
      → IsConsistent media slots r
      → lookup track r.bound ≡ some entry
      → r'.bound ≡ (write track entry false r).bound
      → r'.free ≡ r.free
      → media.holds track r'.plane ≡ false
      → Fewer r r'
      → Released r track r'
  detached track r r' entry c found bound free gone fewer = record {
    moves =
        write-Moves media slots r r' track entry false c found bound free (λ u _. fewer u)
          (λ h. absurd (cc));
    gone = gone;
    fewer = fewer;
  }

  release_missing :
      (track : Text) (r : VideoRouter M)
      → lookup track r.bound ≡ none
      → release access track r ≡ (throw type_error, r)
  unfolding release
  release_missing track r e = ground arith

  pub release_attached :
      (track : Text) (r : VideoRouter M) (entry : Binding)
      → lookup track r.bound ≡ some entry
      → entry.attached ≡ true
      → release access track r ≡ on_plane (access.detach track) (write track entry false r)
  unfolding release
  release_attached track r entry e a = ground arith

  pub release_detached :
      (track : Text) (r : VideoRouter M) (entry : Binding)
      → lookup track r.bound ≡ some entry
      → entry.attached ≡ false
      → release access track r ≡ (ok tt, write track entry false r)
  unfolding release
  release_detached track r entry e a = ground arith

  pub release-Ensures :
      (track : Text) (r : VideoRouter M)
      → IsConsistent media slots r
      → Ensures (Moves media slots r) (λ _ r'. Released r track r') (release access track r)
  unfolding on_plane write
  release-Ensures track r c = elim (Option-cases (lookup track r.bound)) [
    | inl missing ↦ rw (release_missing track r missing) (threw (Moves-refl media slots r c))
    | inr (entry, found) ↦ elim (Bool-cases entry.attached) [
      | inl attached ↦
          let after : VideoRouter M = record (write track entry false r) {
            plane = (access.detach track r.plane).1;
          } in
          let moved : Released r track after =
            detached track r after entry c found refl refl
              (ground (arith, media.detach_removes track track r.plane))
              (λ u h. ground (arith, media.detach_removes track u r.plane)) in
          rw (release_attached track r entry found attached)
            (Ensures-any ((access.detach track r.plane).0, after) moved.moves (λ _ _. moved))
      | inr off ↦ rw (release_detached track r entry found off) (
          returned (
            detached track r _ entry c found refl refl
              (elim (Bool-cases (media.holds track r.plane)) [
                | inl held ↦ let (b, there, is) = c.known track held in absurd (cc)
                | inr gone ↦ gone
              ])
              (λ u h. h)))
    ]
  ]

  pub releases :
      (track : Text) (r : VideoRouter M)
      → IsConsistent media slots r
      → Ensures (Moves media slots r) (λ _ r'. Moves media slots r r') (release access track r)
  releases track r c = Ensures-weaken (release-Ensures track r c) (λ _ _ h. h.moves)

  state_missing :
      (track : Text) (state : VideoState) (r : VideoRouter M)
      → lookup track r.bound ≡ none
      → viewer_state track state r ≡ r
  unfolding viewer_state
  state_missing track state r e = ground arith

  state_told :
      (track : Text) (state : VideoState) (r : VideoRouter M) (entry : Binding)
      → lookup track r.bound ≡ some entry
      → viewer_state track state r ≡ tell track entry state r
  unfolding viewer_state
  state_told track state r entry e = ground arith

  emit-Moves :
      (track : Text) (entry : Binding) (state : VideoState) (r : VideoRouter M)
      → IsConsistent media slots r
      → Moves media slots r (emit track entry state r)
  emit-Moves track entry state r c = record {
    consistent = record {
      distinct = c.distinct;
      known = c.known;
      agree = c.agree;
      fitted = c.fitted;
      conserved = c.conserved;
    };
    keeps = λ t b e. (b, e, refl);
  }

  tell-Moves :
      (track : Text) (entry : Binding) (state : VideoState) (r : VideoRouter M)
      → IsConsistent media slots r
      → lookup track r.bound ≡ some entry
      → (state ≡ failed → media.holds track r.plane ≡ false)
      → Moves media slots r (tell track entry state r)
  unfolding tell write
  tell-Moves track entry failed r c found lost =
      write-Moves media slots r (emit track entry failed (write track entry false r)) track entry
        false c found refl refl (λ u _ h. h) (λ h. absurd (cc (lost refl)))
  tell-Moves track entry starting r c found lost = emit-Moves track entry starting r c
  tell-Moves track entry active r c found lost = emit-Moves track entry active r c
  tell-Moves track entry idle r c found lost = emit-Moves track entry idle r c

  pub viewer_state-Moves :
      (track : Text) (state : VideoState) (r : VideoRouter M)
      → IsConsistent media slots r
      → (state ≡ failed → media.holds track r.plane ≡ false)
      → Moves media slots r (viewer_state track state r)
  viewer_state-Moves track state r c lost = elim (Option-cases (lookup track r.bound)) [
    | inl missing ↦ rw (state_missing track state r missing) (Moves-refl media slots r c)
    | inr (entry, found) ↦
        rw (state_told track state r entry found) (tell-Moves track entry state r c found lost)
  ]

  -- A batch of releases: `close`.
  pub release_all-Ensures :
      (tracks : List Text) (r : VideoRouter M)
      → IsConsistent media slots r
      → Ensures
          (Moves media slots r)
          (λ _ r'.
            Moves media slots r r'
            × Fewer r r'
            × ((u : Text) → includes tracks u ≡ true → media.holds u r'.plane ≡ false))
          (release_all access tracks r)
  unfolding release_all continue
  release_all-Ensures [] r c = returned (Moves-refl media slots r c, (λ u h. h), λ u h. absurd (cc))
  release_all-Ensures (track ∷ tracks) r c = Ensures-continue (release-Ensures track r c) λ _ p a.
      Ensures-weaken
        (Ensures-after media slots a.moves (release_all-Ensures tracks p a.moves.consistent))
        λ _ q (moves, fewer, gone). (
          Moves-trans media slots a.moves moves,
          λ u h. a.fewer u (fewer u h),
          λ u h. elim (Bool-cases (media.holds u q.plane)) [
            | inr out ↦ out
            | inl held ↦ elim (text_discrete track u) [
              | yes same ↦
                  let still : media.holds track p.plane ≡ true = fewer track (rw same held) in
                  absurd (cc (a.gone))
              | no other ↦ gone u (ground arith)
            ]
          ],
        )
