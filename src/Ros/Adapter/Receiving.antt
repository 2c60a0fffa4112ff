-- ===== src/Ros/Adapter/Receiving.antt =====
-- ros/adapter.ts: `receive`, and the callback of a native subscription.
use package.ros_webrtc_bridge.Prelude.{
  Bool, false, Option, none, some, List, [], ◌∷◌, ◌==◌, if◌then◌else◌, Text, any,
}
use package.ros_webrtc_bridge.Prelude.Dict.{lookup}
use package.ros_webrtc_bridge.Runtime.Outcome.{Error, ok, or_throw, type_error}
use package.ros_webrtc_bridge.Runtime.Exec.{
  Exec, pure, lift, continue, recover, attempt, ◌>>=◌, ◌>>◌,
}
use package.ros_webrtc_bridge.Router.Protocol.{Value}
use package.ros_webrtc_bridge.Router.SessionRouter.{Codec}
use package.ros_webrtc_bridge.Ros.Adapter.{Callback, Adapter, Outside, is_running, query, on_world}

module _ {W N P : Type 0} where
  abbrev pub has : Text → Callback → Adapter W N P → Bool
  has name callback a = elim (lookup name a.listeners) [
    | none ↦ false
    | some listeners ↦ any (◌==◌ callback) listeners
  ]

module _ {W N P : Type 0} (out : Outside W N P) where
  abbrev pub report : Error → Exec (Adapter W N P) (Unit {0})
  report error = on_world (out.on_error error)

  -- The body of the loop of `receive` for one listener, which decodes a copy of its own, and the loop
  -- over the copy of the set.
  unfoldable pub notify_one : Text → Codec N → Value → Callback → Exec (Adapter W N P) (Unit {0})
  unfolding lookup continue recover
  notify_one name codec wire callback a =
      if has name callback a
      then attempt (lift (codec.decode (some wire)) >>= out.call callback) report a
      else (ok tt, a)

  unfoldable pub notify : Text → Codec N → Value → List Callback → Exec (Adapter W N P) (Unit {0})
  unfolding lookup continue recover
  notify name codec wire [] = pure tt
  notify name codec wire (callback ∷ more) =
      notify_one name codec wire callback >> notify name codec wire more

  unfoldable pub deliver : Text → N → Exec (Adapter W N P) (Unit {0})
  unfolding lookup notify continue
  deliver name native = do
    entry ← query (λ a. or_throw (lookup name a.registrations) type_error)
    wire ← lift (entry.codec.encode native)
    listeners ← query (λ a. or_throw (lookup name a.listeners) type_error)
    notify name entry.codec wire listeners

  unfoldable pub receive : Text → N → Exec (Adapter W N P) (Unit {0})
  unfolding deliver recover
  receive name native a =
      if is_running a.state then attempt (deliver name native) report a else (ok tt, a)

  unfoldable pub receive_all : List Text → N → Exec (Adapter W N P) (Unit {0})
  unfolding receive continue
  receive_all [] native = pure tt
  receive_all (name ∷ more) native = receive name native >> receive_all more native

  unfoldable pub sample_for : Option (List Text) → N → Exec (Adapter W N P) (Unit {0})
  unfolding receive_all
  sample_for none native = pure tt
  sample_for (some names) native = receive_all names native

  -- The native callback of the subscription that was made with a key.
  unfoldable pub native_sample : Text → N → Exec (Adapter W N P) (Unit {0})
  unfolding receive_all lookup
  native_sample key native a = sample_for (lookup key a.aliases) native a
