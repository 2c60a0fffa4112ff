-- ===== src/Router/Video/Closing.antt =====
-- video.ts: a router that is closed leaves no viewer in the media plane.
use package.ros_webrtc_bridge.Prelude.{
  ◌≡◌, refl, ap, ◌∙◌, true, false, some, List, [], ◌∷◌, Bool-cases, Text, text_discrete, inl, inr,
  arith,
}
use package.ros_webrtc_bridge.Prelude.Dict.{lookup}
use package.ros_webrtc_bridge.Runtime.Outcome.{ok}
use package.ros_webrtc_bridge.Runtime.Exec.{continue, Ensures-state, Ensures-ok}
use package.ros_webrtc_bridge.Router.Protocol.{includes}
use package.ros_webrtc_bridge.Router.Video.{
  VideoSlot, Binding, VideoAccess, VideoRouter, keys, on_plane, release, release_all, close,
}
use package.ros_webrtc_bridge.Router.Video.Plane.{MediaPlane}
use package.ros_webrtc_bridge.Router.Video.Slots.{IsConsistent}
use package.ros_webrtc_bridge.Router.Video.Operations.{
  release_attached, release_detached, releases, release_all-Ensures,
}

-- The keys are the tracks that are bound.
includes-keys :
    (u : Text) (b : Binding) (m : List (Text × Binding))
    → lookup u m ≡ some b
    → includes (keys m) u ≡ true
unfolding lookup
includes-keys u b [] e = absurd (cc)
includes-keys u b ((t, c) ∷ m) e = ground (arith, includes-keys u b m)

keys_bound :
    (u : Text) (m : List (Text × Binding))
    → includes (keys m) u ≡ true
    → (b : Binding) × (lookup u m ≡ some b)
unfolding lookup
keys_bound u [] e = absurd (cc)
keys_bound u ((t, c) ∷ m) e = elim (text_discrete t u) [
  | yes p ↦ (c, ground arith)
  | no p ↦ let (b, h) = keys_bound u m (ground arith) in (b, ground arith)
]

module _ {M : Type 0} {access : VideoAccess M} (media : MediaPlane access) (slots : List VideoSlot)
    (total : (t : Text) (m : M) → (access.detach t m).0 ≡ ok tt) where
  release_returns :
      (track : Text) (r : VideoRouter M) (entry : Binding)
      → lookup track r.bound ≡ some entry
      → (release access track r).0 ≡ ok tt
  unfolding on_plane
  release_returns track r entry found = elim (Bool-cases entry.attached) [
    | inl on ↦ rw (release_attached media slots track r entry found on) (total track _)
    | inr off ↦ rw (release_detached media slots track r entry found off) (refl)
  ]

  release_all_returns :
      (tracks : List Text) (r : VideoRouter M)
      → IsConsistent media slots r
      → ((u : Text) → includes tracks u ≡ true → (b : Binding) × (lookup u r.bound ≡ some b))
      → (release_all access tracks r).0 ≡ ok tt
  unfolding release_all continue
  release_all_returns [] r c known = refl
  release_all_returns (track ∷ tracks) r c known =
      let (entry, found) = known track (ground arith) in
      let moves = Ensures-state (releases media slots track r c) (λ _ _ h. h) in
      let first : release access track r ≡ (ok tt, (release access track r).1) =
        ap (λ o. (o, (release access track r).1)) (release_returns track r entry found) in
      ap (λ x. (continue x (λ _. release_all access tracks)).0) first
      ∙ release_all_returns tracks _ moves.consistent λ u h.
        let (b, old) = known u (ground arith) in let (b', now, _) = moves.keeps u b old in (b', now)

  -- If detaching a viewer does not throw: closing a consistent router does not throw, and leaves no
  -- viewer of the peer in the media plane, also for tracks whose source has failed.
  pub close-releases :
      (r : VideoRouter M)
      → IsConsistent media slots r
      → ((close access r).0 ≡ ok tt) × ((u : Text) → media.holds u (close access r).1.plane ≡ false)
  unfolding close
  close-releases r c =
      let returns = release_all_returns (keys r.bound) r c (λ u h. keys_bound u r.bound h) in
      let (_, fewer, gone) =
        Ensures-ok tt _ (release_all-Ensures media slots (keys r.bound) r c)
          (ap (λ o. (o, (release_all access (keys r.bound) r).1)) returns) in
      (
        returns,
        λ u. elim (Bool-cases (media.holds u (release_all access (keys r.bound) r).1.plane)) [
          | inr out ↦ out
          | inl held ↦
              let (b, found, _) = c.known u (fewer u held) in
              gone u (includes-keys u b r.bound found)
        ],
      )
