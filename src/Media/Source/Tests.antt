-- ===== src/Media/Source/Tests.antt =====
-- source.ts in concrete histories, and the theorem applied.
use package.ros_webrtc_bridge.Prelude.{
  ℕ, Bool, not, ltb, ◌==◌, ◌≡◌, refl, true, false, none, some, arith, [], ◌∷◌,
}
use package.ros_webrtc_bridge.Config.Video.{VideoSettings}
use package.ros_webrtc_bridge.Router.Video.{idle, starting, failed}
use package.ros_webrtc_bridge.Media.Renumber.{Packet, init, frame_step, anchor, renumber, restart}
use package.ros_webrtc_bridge.Media.Source.{
  VideoSource, idle_source, is_running, retryable, notify, request_keyframe, finish, resume, begin,
  add, delete_viewer, remove, grace_ended, start_expired, start_rejected, close, deliver,
  packet_from, failure_from, resume_all, stop_settled,
}
use package.ros_webrtc_bridge.Media.Source.Holding.{holds}
use package.ros_webrtc_bridge.Media.Source.History.{
  Reached, here, after, added, removed, sent, unwatched, stopped, Bounded, reached-Bounded,
}

program : Unit {0}
unfolding init frame_step anchor renumber restart idle_source is_running retryable notify
    request_keyframe finish resume begin add delete_viewer remove grace_ended start_expired
    start_rejected close deliver packet_from failure_from resume_all stop_settled
program = tt

abbrev settings : VideoSettings
settings = record {
  start_timeout_ms = 5000;
  stop_grace_ms = 100;
  retry_min_interval_ms = 1000;
  pli_min_interval_ms = 500;
}

-- Every call of `create` but the eighth gives an encoder.
abbrev made : ℕ → Bool
made n = not (n == 7)

abbrev packet : Packet
packet = record { sequence = 7; timestamp = 9; rest = [] }

-- Watched, left, and stopping.
abbrev leaving : VideoSource
leaving = grace_ended 200 (remove 1 (packet_from 0 packet (add 1 0 (idle_source settings 30 made))))

-- A viewer who comes back waits for the release, and then has an encoder of its own.
abbrev again : VideoSource
again = add 1 300 leaving

restarts :
    (leaving.phase ≡ idle)
    × (is_running leaving ≡ true)
    × (holds [] again.effects ≡ 0 ∷ [])
    × ((stop_settled again).source ≡ some 1)
    × (holds [] (stop_settled again).effects ≡ 1 ∷ [])
unfolding program
restarts = (refl, refl, refl, refl, refl)

-- The waiting viewer leaves for longer than the grace, and another comes while the release is still
-- pending: both starts go on when it settles, and the track holds two encoders. A close releases one of
-- them; the other is left.
abbrev hurried : VideoSource
hurried = stop_settled (add 2 500 (grace_ended 450 (remove 1 again)))

holds_two :
    (holds [] hurried.effects ≡ 1 ∷ 2 ∷ [])
    × (hurried.source ≡ some 2)
    × (holds [] (stop_settled (close 600 hurried)).effects ≡ 1 ∷ [])
    × (is_running (stop_settled (close 600 hurried)) ≡ false)
unfolding program
holds_two = (refl, refl, refl, refl)

-- A start that takes too long fails, its viewers are told and let go, and a retry has to wait.
fails :
    let s = start_expired 5000 (add 1 0 (idle_source settings 30 made)) in
    (s.phase ≡ failed) × (s.viewers ≡ []) × (retryable 5999 s ≡ false) × (retryable 6000 s ≡ true)
unfolding program
fails = (refl, refl, refl, refl)

-- Where `create` throws, the source stays in its start until the deadline.
unmade :
    let s = add 1 0 (idle_source settings 30 (λ n. ltb 0 n)) in
    (s.phase ≡ starting)
    × (s.source ≡ none)
    × ((start_expired 5000 s).phase ≡ failed)
    × ((add 2 6000 (start_expired 5000 s)).source ≡ some 1)
unfolding program
unmade = (refl, refl, refl, refl)

calm : leaving.waiting ≡ 0
unfolding program
calm = refl

calm_at_first : (idle_source settings 30 made).waiting ≡ 0
unfolding program
calm_at_first = refl

abbrev restarting : Reached (idle_source settings 30 made) (stop_settled again)
restarting =
    after
      (after
        (after (after (after (after here (added 1 0)) (sent 0 packet)) (removed 1)) (unwatched 200))
        (added 1 300))
      stopped

reached-Bounded_example : Bounded (stop_settled again)
reached-Bounded_example =
    reached-Bounded settings 30 made (stop_settled again) restarting
      ((((((tt, λ _. calm_at_first), tt), tt), tt), λ _. calm), tt)

-- Without calm the theorem fails.
hurried_holds_more : ¬ Bounded hurried
hurried_holds_more b = absurd (omega (arith, rw holds_two.0 at b.one))
