-- ===== src/Router/Video/Subscribing.antt =====
-- video.ts: what a subscription ensures.
use package.ros_webrtc_bridge.Prelude.{
  ◌≡◌, refl, sym, true, false, none, some, List, Bool-cases, Option-cases, Text, inl, inr, arith,
  ◌⊎◌,
}
use package.ros_webrtc_bridge.Prelude.Dict.{lookup, lookup-put_self}
use package.ros_webrtc_bridge.Runtime.Outcome.{Outcome, ok, throw, require, Error, unauthorized}
use package.ros_webrtc_bridge.Runtime.Exec.{
  continue, Ensures, returned, threw, Ensures-lift, Ensures-continue,
}
use package.ros_webrtc_bridge.Router.Video.{
  VideoSlot, Binding, VideoAccess, VideoRouter, Response, video_subscribed, write, on_plane,
  new_binding, bind, watch, subscribe, profile_idc,
}
use package.ros_webrtc_bridge.Router.Video.Plane.{MediaPlane}
use package.ros_webrtc_bridge.Router.Video.Slots.{
  IsConsistent, Moves, Moves-trans, Moves-refl, write-Moves, plane-Moves, new_binding-Moves,
  Ensures-after,
}

module _ {M : Type 0} {access : VideoAccess M} (media : MediaPlane access)
    (slots : List VideoSlot) where
  record Bound (r : VideoRouter M) (track : Text) (entry : Binding) (r' : VideoRouter M)
      : Type 0 where
    moves : Moves media slots r r'
    found : lookup track r'.bound ≡ some entry
    same_plane : r'.plane ≡ r.plane
    before : (lookup track r.bound ≡ some entry) ⊎ (entry.watching ≡ false)

  bind_old :
      (track : Text) (r : VideoRouter M) (entry : Binding)
      → lookup track r.bound ≡ some entry
      → bind access track r ≡ (ok entry, r)
  unfolding bind
  bind_old track r entry e = ground arith

  bind_new :
      (track : Text) (r r' : VideoRouter M) (entry : Binding)
      → lookup track r.bound ≡ none
      → new_binding access track r ≡ ok (entry, r')
      → bind access track r ≡ (ok entry, r')
  unfolding bind
  bind_new track r r' entry e n = ground arith

  bind_refused :
      (track : Text) (r : VideoRouter M) (code : Error)
      → lookup track r.bound ≡ none
      → new_binding access track r ≡ throw code
      → bind access track r ≡ (throw code, r)
  unfolding bind
  bind_refused track r code e n = ground arith

  bind-Ensures :
      (track : Text) (r : VideoRouter M)
      → IsConsistent media slots r
      → Ensures (Moves media slots r) (Bound r track) (bind access track r)
  bind-Ensures track r c = elim (Option-cases (lookup track r.bound)) [
    | inr (entry, found) ↦ rw (bind_old track r entry found) (
        returned (record {
          moves = Moves-refl media slots r c;
          found = found;
          same_plane = refl;
          before = inl found;
        }))
    | inl fresh ↦ fresh_bind fresh (new_binding access track r) refl
  ]
    where
      fresh_bind :
          lookup track r.bound ≡ none
          → (o : Outcome (Binding × VideoRouter M)) → new_binding access track r ≡ o
          → Ensures (Moves media slots r) (Bound r track) (bind access track r)
      fresh_bind fresh (ok (entry, r')) e =
          let (moves, found, same, off) =
            new_binding-Moves media slots track r r' entry c fresh e in
          rw (bind_new track r r' entry fresh e) (
            returned (record { moves = moves; found = found; same_plane = same; before = inr off }))
      fresh_bind fresh (throw code) e =
          rw (bind_refused track r code fresh e) (threw (Moves-refl media slots r c))

  -- The track is watched on the slot of the binding.
  record Watched (r : VideoRouter M) (track : Text) (entry : Binding) (r' : VideoRouter M)
      : Type 0 where
    moves : Moves media slots r r'
    now : Binding
    found : lookup track r'.bound ≡ some now
    on_slot : now.slot ≡ entry.slot
    watching : now.watching ≡ true
    held : (media.holds track r'.plane ≡ true) ⊎ (entry.watching ≡ true)

  watch_again :
      (track : Text) (r : VideoRouter M) (entry : Binding)
      → entry.watching ≡ true
      → watch access track entry r ≡ (ok tt, r)
  unfolding watch
  watch_again track r entry e = ground arith

  abbrev attached : VideoRouter M → Text → VideoRouter M
  attached r track = record r { plane = (access.attach track r.plane).1 }

  watch_first :
      (track : Text) (r : VideoRouter M) (entry : Binding)
      → entry.watching ≡ false
      → watch access track entry r
        ≡ continue
            ((access.attach track r.plane).0, attached r track)
            (λ _ q. (ok tt, write track entry true q))
  unfolding watch on_plane
  watch_first track r entry e = ground arith

  watch-Ensures :
      (track : Text) (r : VideoRouter M) (entry : Binding)
      → IsConsistent media slots r
      → lookup track r.bound ≡ some entry
      → Ensures
          (Moves media slots r)
          (λ _ r'. Watched r track entry r')
          (watch access track entry r)
  unfolding continue write
  watch-Ensures track r entry c found = elim (Bool-cases entry.watching) [
    | inl on ↦ rw (watch_again track r entry on) (
        returned (record {
          moves = Moves-refl media slots r c;
          now = entry;
          found = found;
          on_slot = refl;
          watching = on;
          held = inr on;
        }))
    | inr off ↦ rw (watch_first track r entry off) (taken (access.attach track r.plane).0 refl)
  ]
    where
      q : VideoRouter M
      q = write track entry true (attached r track)

      taken :
          (o : Outcome (Unit {0}))
          → (access.attach track r.plane).0 ≡ o
          → Ensures
              (Moves media slots r)
              (λ _ r'. Watched r track entry r')
              (continue (o, attached r track) (λ _ p. (ok tt, write track entry true p)))
      taken (ok u) e = returned (record {
        moves =
            write-Moves media slots r q track entry true c found refl refl
              (λ u other h. ground (arith, media.attach_adds track u r.plane)) (λ _. refl);
        now = record entry { watching = true; attached = true };
        found = lookup-put_self track _ r.bound;
        on_slot = refl;
        watching = refl;
        held = inl (ground (arith, media.attach_adds track track r.plane));
      })
      taken (throw code) e = threw (
          plane-Moves media slots r _ c
            (λ u h. rw (sym (media.attach_refuses track u r.plane code e)) h))

  -- A subscription that is answered: the track is watched, on a slot of its profile, which the answer
  -- names, and its viewer is in the media plane unless the peer was watching already.
  pub record Subscribed (r : VideoRouter M) (track id : Text) (response : Response)
      (r' : VideoRouter M) : Type 0 where
    pub moves : Moves media slots r r'
    pub allowed : access.authorize track r.plane ≡ true
    pub now : Binding
    pub found : lookup track r'.bound ≡ some now
    pub watching : now.watching ≡ true
    pub fits : profile_idc now.slot.profile_level_id ≡ access.track_profile track
    pub answer : response ≡ video_subscribed id track now.slot.mid
    pub held :
        (media.holds track r'.plane ≡ true)
        ⊎ ((old : Binding) × (lookup track r.bound ≡ some old) × (old.watching ≡ true))

  -- With a media plane that keeps its laws, on a consistent router: a subscription keeps the router
  -- consistent and every bound track on its slot, whether it throws or returns. If it returns, the
  -- peer was authorized, and the track is watched on a slot of its profile, which the answer names; and
  -- its viewer is in the media plane unless the peer was watching the track before.
  pub subscribe-Ensures :
      (track id : Text) (r : VideoRouter M)
      → IsConsistent media slots r
      → Ensures (Moves media slots r) (Subscribed r track id) (subscribe access track id r)
  unfolding subscribe continue
  subscribe-Ensures track id r c =
      Ensures-lift (require (access.authorize track r.plane) unauthorized) _
        (Moves-refl media slots r c)
        λ _ allowed. Ensures-continue (bind-Ensures track r c) λ entry p b.
          Ensures-continue
            (Ensures-after media slots b.moves
              (watch-Ensures track p entry b.moves.consistent b.found))
            λ _ p' w. returned (record {
              moves = Moves-trans media slots b.moves w.moves;
              allowed = ground arith;
              now = w.now;
              found = w.found;
              watching = w.watching;
              fits = w.moves.consistent.fitted track w.now w.found;
              answer = rw w.on_slot (refl);
              held = elim w.held [
                | inl held ↦ inl held
                | inr on ↦ elim b.before [ inl old ↦ inr (entry, old, on) | inr off ↦ absurd (cc) ]
              ];
            })
