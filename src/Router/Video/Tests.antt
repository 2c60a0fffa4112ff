-- ===== src/Router/Video/Tests.antt =====
-- video.ts at concrete inputs, and the theorems applied.
use package.ros_webrtc_bridge.Prelude.{
  ◌≡◌, refl, true, false, not, ◌&&◌, if◌then◌else◌, List, [], ◌∷◌, Text, codes, same_text,
  text_discrete, arith,
}
use package.ros_webrtc_bridge.Prelude.Dict.{lookup, put}
use package.ros_webrtc_bridge.Runtime.Outcome.{ok, throw, Error}
use package.ros_webrtc_bridge.Runtime.Exec.{continue, Ensures}
use package.ros_webrtc_bridge.Session.Validation.{identifier}
use package.ros_webrtc_bridge.Router.Protocol.{includes, Wire, Value, fields, text_field}
use package.ros_webrtc_bridge.Router.Video.{
  VideoSlot, Binding, VideoAccess, VideoRouter, VideoState, Response, init, operation, subscribe,
  unsubscribe, close, bind, new_binding, take_first, profile_idc, release, release_all, revalidate,
  viewer_state, watch, on_plane, write, tell, track_of,
}
use package.ros_webrtc_bridge.Router.Video.Plane.{MediaPlane}
use package.ros_webrtc_bridge.Router.Video.Slots.{IsConsistent, Moves}
use package.ros_webrtc_bridge.Router.Video.Subscribing.{Subscribed, subscribe-Ensures}
use package.ros_webrtc_bridge.Router.Video.Closing.{close-releases}
use package.ros_webrtc_bridge.Router.Video.History.{VideoCall, step, run, run-init-IsConsistent}

program : Unit {0}
unfolding init operation subscribe unsubscribe close bind new_binding take_first profile_idc release
    release_all revalidate viewer_state watch on_plane write tell track_of lookup put continue
    fields text_field identifier text_discrete run step
program = tt

-- A plane that is the list of the tracks watched.
unfoldable without : Text → List Text → List Text
without track [] = []
without track (u ∷ us) = let rest = without track us in if same_text u track then rest else u ∷ rest

abbrev access : VideoAccess (List Text)
access = record {
  authorize = λ track _. not (same_text track (codes "secret"));
  track_profile = λ track. if same_text track (codes "rear") then 77 else 66;
  attach = λ track m. (ok tt, track ∷ m);
  detach = λ track m. (ok tt, without track m);
  request_keyframe = λ track m. (ok tt, m);
}

includes-without :
    (track u : Text) (m : List Text)
    → includes (without track m) u ≡ (not (same_text u track) && includes m u)
unfolding without
includes-without track u [] = ground arith
includes-without track u (t ∷ ts) = ground (arith, includes-without track u ts)

abbrev media : MediaPlane access
media = record {
  holds = λ u m. includes m u;
  attach_adds = λ track u m _. ground arith;
  attach_refuses = λ track u m e h. absurd (cc);
  detach_removes = λ track u m. includes-without track u m;
  keyframe_keeps = λ track u m. refl;
}

abbrev slots : List VideoSlot
slots =
    record { mid = codes "1"; profile_level_id = codes "42e01f" }
    ∷ record { mid = codes "2"; profile_level_id = codes "4d001f" }
    ∷ []

abbrev request : Text → Text → Text → Wire
request op key value = record {
  op = op;
  rest = (codes "id", Value.text (codes "r")) ∷ (key, Value.text value) ∷ [];
}

-- The source of `rear` fails between two subscriptions.
abbrev calls : List (VideoCall (List Text))
calls =
    VideoCall.operates (request (codes "video.subscribe") (codes "track") (codes "rear"))
      (codes "r")
    ∷ VideoCall.notifies (codes "rear") VideoState.failed (without (codes "rear"))
    ∷ VideoCall.operates (request (codes "video.subscribe") (codes "track") (codes "rear"))
        (codes "r")
    ∷ VideoCall.operates (request (codes "video.subscribe") (codes "track") (codes "front"))
        (codes "r")
    ∷ VideoCall.operates (request (codes "video.unsubscribe") (codes "mid") (codes "1")) (codes "r")
    ∷ []

abbrev fresh : VideoRouter (List Text)
fresh = record { bound = []; free = slots; sent = []; plane = [] }

starts_fresh : init slots [] ≡ fresh
unfolding program
starts_fresh = refl

abbrev used : VideoRouter (List Text)
used = run access calls fresh

-- Both tracks keep their slots, and `rear` alone is in the plane.
used_plane : (used.plane ≡ codes "rear" ∷ []) × (used.free ≡ [])
unfolding program without
used_plane = (refl, refl)

without_fewer :
    (track : Text) (m : List Text) (u : Text)
    → includes (without track m) u ≡ true
    → includes m u ≡ true
without_fewer track m u h = ground (arith, includes-without track u m)

without_gone : (track : Text) (m : List Text) → includes (without track m) track ≡ false
without_gone track m = ground (arith, includes-without track track m)

run-init-IsConsistent_example : IsConsistent media slots used
unfolding program
run-init-IsConsistent_example =
    run-init-IsConsistent media slots [] calls (λ u. refl)
      (
        tt,
        (
          (without_fewer (codes "rear"), λ _ m. without_gone (codes "rear") m),
          (tt, (tt, (tt, tt))),
        ),
      )

abbrev rear : Binding
rear = record {
  slot = record { mid = codes "2"; profile_level_id = codes "4d001f" };
  watching = true;
  attached = true;
}

abbrev closing : List (VideoCall (List Text))
closing = VideoCall.closes ∷ VideoCall.revalidates ∷ []

subscribe-Ensures_example :
    Ensures
      (Moves media slots used)
      (Subscribed media slots used (codes "front") (codes "r"))
      (subscribe access (codes "front") (codes "r") used)
subscribe-Ensures_example =
    subscribe-Ensures media slots (codes "front") (codes "r") used run-init-IsConsistent_example

-- The slot that `front` had before is its slot again.
subscribe_again :
    (subscribe access (codes "front") (codes "r") used).0
    ≡ ok (Response.video_subscribed (codes "r") (codes "front") (codes "1"))
unfolding program
subscribe_again = refl

subscribe_full :
    ((subscribe access (codes "left") (codes "r") used).0 ≡ throw Error.video_slot_limit)
    × ((subscribe access (codes "secret") (codes "r") used).0 ≡ throw Error.unauthorized)
    × ((subscribe access (codes "left") (codes "r") (record used { free = []; bound = [] })).0
        ≡ throw Error.video_slot_limit)
unfolding program
subscribe_full = (refl, refl, refl)

close-releases_example :
    ((close access used).0 ≡ ok tt)
    × ((u : Text) → media.holds u (close access used).1.plane ≡ false)
close-releases_example = close-releases media slots (λ t m. refl) used run-init-IsConsistent_example
