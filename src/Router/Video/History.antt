-- ===== src/Router/Video/History.antt =====
-- video.ts over histories of calls, and of what the media plane does between them.
use package.ros_webrtc_bridge.Prelude.{
  ◌≡◌, sym, true, false, not, ◌&&◌, List, [], ◌∷◌, if_cases, All, Text, codes, same_text, arith,
}
use package.ros_webrtc_bridge.Prelude.Dict.{lookup}
use package.ros_webrtc_bridge.Runtime.Outcome.{Outcome, or_throw}
use package.ros_webrtc_bridge.Runtime.Exec.{
  Exec, continue, Ensures, returned, threw, Ensures-lift, Ensures-continue, Ensures-weaken,
  Ensures-state,
}
use package.ros_webrtc_bridge.Router.Protocol.{Wire, fields, text_field}
use package.ros_webrtc_bridge.Router.Video.{
  VideoSlot, VideoAccess, VideoRouter, VideoState, failed, Response, init, keys, on_plane,
  viewer_state, unsubscribe, track_of, operation, close, recheck, recheck_all, revalidate,
  is_watching, keyframe_requested,
}
use package.ros_webrtc_bridge.Router.Video.Plane.{MediaPlane}
use package.ros_webrtc_bridge.Router.Video.Slots.{
  IsConsistent, Moves, Moves-refl, Moves-trans, plane-Moves, Ensures-after,
}
use package.ros_webrtc_bridge.Router.Video.Operations.{
  releases, release-Ensures, release_all-Ensures, viewer_state-Moves,
}
use package.ros_webrtc_bridge.Router.Video.Subscribing.{subscribe-Ensures}

-- The calls of a router, and a move of the media plane with a notification of a viewer after it.
pub data VideoCall (M : Type 0) : Type 0 where
  operates : Wire → Text → VideoCall M
  closes revalidates : VideoCall M
  asks_keyframe : Text → VideoCall M
  plane_moves : (M → M) → VideoCall M
  notifies : Text → VideoState → (M → M) → VideoCall M

module _ {M : Type 0} (access : VideoAccess M) where
  unfoldable pub step : VideoCall M → VideoRouter M → VideoRouter M
  step (operates wire id) r = (operation access wire id r).1
  step closes r = (close access r).1
  step revalidates r = (revalidate access r).1
  step (asks_keyframe track) r = (keyframe_requested access track r).1
  step (plane_moves f) r = record r { plane = f r.plane }
  step (notifies track state f) r = viewer_state track state (record r { plane = f r.plane })

  unfoldable pub run : List (VideoCall M) → VideoRouter M → VideoRouter M
  run [] r = r
  run (c ∷ cs) r = run cs (step c r)

module _ {M : Type 0} {access : VideoAccess M} (media : MediaPlane access) where
  -- The plane takes no viewer of this peer on by itself, and a source that fails lets its viewers go.
  abbrev pub Fair : VideoCall M → Type 0
  Fair (operates wire id) = Unit
  Fair closes = Unit
  Fair revalidates = Unit
  Fair (asks_keyframe track) = Unit
  Fair (plane_moves f) = (m : M) (u : Text) → media.holds u (f m) ≡ true → media.holds u m ≡ true
  Fair (notifies track state f) =
      ((m : M) (u : Text) → media.holds u (f m) ≡ true → media.holds u m ≡ true)
      × (state ≡ failed → (m : M) → media.holds track (f m) ≡ false)

module _ {M : Type 0} {access : VideoAccess M} (media : MediaPlane access)
    (slots : List VideoSlot) where
  abbrev Stays : {A : Type 0} → VideoRouter M → Outcome A × VideoRouter M → Type 0
  Stays r x = Ensures (Moves media slots r) (λ _ r'. Moves media slots r r') x

  unsubscribe-Stays :
      (mid id : Text) (r : VideoRouter M)
      → IsConsistent media slots r
      → Stays r (unsubscribe access mid id r)
  unfolding unsubscribe continue
  unsubscribe-Stays mid id r c =
      Ensures-lift (or_throw (track_of mid r.bound) _) _ (Moves-refl media slots r c)
        λ track _. Ensures-continue (releases media slots track r c) λ _ _ h. returned h

  operation-Stays :
      (wire : Wire) (id : Text) (r : VideoRouter M)
      → IsConsistent media slots r
      → Stays r (operation access wire id r)
  unfolding operation continue
  operation-Stays wire id r c =
      if_cases (λ (f : Exec (VideoRouter M) Response). Stays r (f r))
        (same_text wire.op (codes "video.subscribe"))
        (λ _. Ensures-lift (fields wire _) _ self λ _ _.
          Ensures-lift (text_field wire _) _ self λ track _.
            Ensures-weaken (subscribe-Ensures media slots track id r c) (λ _ _ s. s.moves))
        λ _.
          if_cases (λ (f : Exec (VideoRouter M) Response). Stays r (f r))
            (same_text wire.op (codes "video.unsubscribe"))
            (λ _.
              Ensures-lift (fields wire _) _ self λ _ _.
                Ensures-lift (text_field wire _) _ self λ mid _. unsubscribe-Stays mid id r c)
            (λ _. threw self)
    where
      self : Moves media slots r r
      self = Moves-refl media slots r c

  recheck-Stays :
      (track : Text) (r : VideoRouter M)
      → IsConsistent media slots r
      → Stays r (recheck access track r)
  unfolding recheck continue
  recheck-Stays track r c =
      if_cases (Stays r)
        (is_watching (lookup track r.bound) && not (access.authorize track r.plane))
        (λ _. Ensures-continue (release-Ensures media slots track r c) λ _ p a. returned (
          Moves-trans media slots a.moves
            (viewer_state-Moves media slots track failed p a.moves.consistent (λ _. a.gone))))
        (λ _. returned (Moves-refl media slots r c))

  recheck_all-Stays :
      (tracks : List Text) (r : VideoRouter M)
      → IsConsistent media slots r
      → Stays r (recheck_all access tracks r)
  unfolding recheck_all continue
  recheck_all-Stays [] r c = returned (Moves-refl media slots r c)
  recheck_all-Stays (track ∷ tracks) r c = Ensures-continue (recheck-Stays track r c) λ _ p m.
      Ensures-weaken (Ensures-after media slots m (recheck_all-Stays tracks p m.consistent))
        (λ _ _ h. Moves-trans media slots m h)

  keyframe-Moves :
      (track : Text) (r : VideoRouter M)
      → IsConsistent media slots r
      → Moves media slots r (keyframe_requested access track r).1
  unfolding keyframe_requested on_plane
  keyframe-Moves track r c =
      if_cases (λ (x : Outcome (Unit {0}) × VideoRouter M). Moves media slots r x.1)
        (is_watching (lookup track r.bound))
        (λ _.
          plane-Moves media slots r _ c (λ u h. rw (sym (media.keyframe_keeps track u r.plane)) h))
        (λ _. Moves-refl media slots r c)

  step-Moves :
      (call : VideoCall M) (r : VideoRouter M)
      → Fair media call
      → IsConsistent media slots r
      → Moves media slots r (step access call r)
  unfolding step close revalidate
  step-Moves (operates wire id) r h c = Ensures-state (operation-Stays wire id r c) (λ _ _ m. m)
  step-Moves closes r h c =
      Ensures-state (release_all-Ensures media slots (keys r.bound) r c) (λ _ _ m. m.0)
  step-Moves revalidates r h c = Ensures-state (recheck_all-Stays (keys r.bound) r c) (λ _ _ m. m)
  step-Moves (asks_keyframe track) r h c = keyframe-Moves track r c
  step-Moves (plane_moves f) r h c = plane-Moves media slots r (f r.plane) c (h r.plane)
  step-Moves (notifies track state f) r h c =
      let moved = plane-Moves media slots r (f r.plane) c (h.0 r.plane) in
      Moves-trans media slots moved
        (viewer_state-Moves media slots track state _ moved.consistent (λ e. h.1 e r.plane))

  pub run-Moves :
      (cs : List (VideoCall M)) (r : VideoRouter M)
      → All (Fair media) cs
      → IsConsistent media slots r
      → Moves media slots r (run access cs r)
  unfolding run
  run-Moves [] r h c = Moves-refl media slots r c
  run-Moves (call ∷ cs) r h c =
      let first = step-Moves call r h.0 c in
      Moves-trans media slots first (run-Moves cs (step access call r) h.1 first.consistent)

  -- With a media plane that keeps its laws, that holds no viewer of the peer at first and takes none on
  -- by itself, and whose sources let their viewers go when they fail: after any history of calls on a
  -- new router, throws included, the slots bound and the free ones are together the slots given, no
  -- track is bound twice, each is bound to a slot of its profile, a binding is watched exactly if it is
  -- attached, and every viewer in the plane is that of an attached binding.
  pub run-init-IsConsistent :
      (plane : M) (cs : List (VideoCall M))
      → ((u : Text) → media.holds u plane ≡ false)
      → All (Fair media) cs
      → IsConsistent media slots (run access cs (init slots plane))
  unfolding init lookup
  run-init-IsConsistent plane cs empty h =
      (run-Moves cs (init slots plane) h (record {
        distinct = tt;
        known = λ u e. absurd (cc (empty u));
        agree = λ u b e. absurd (cc);
        fitted = λ u b e. absurd (cc);
        conserved = λ f. omega arith;
      })).consistent
