-- ===== src/Router/SessionRouter/Handling.antt =====
-- router/index.ts: the operations of a request keep the router's invariant.
use package.ros_webrtc_bridge.Prelude.{
  ℕ, ◌<◌, ◌≡◌, refl, Bool, true, false, Option, none, some, is_some, Text, codes, same_text,
  if◌then◌else◌, arith, negsuc,
}
use package.ros_webrtc_bridge.Prelude.Dict.{length-put-le, length-delete-le}
use package.ros_webrtc_bridge.Runtime.Exec.{
  Exec, continue, ◌>>=◌, gets, lift, ensure, Keeps, Keeps-then, Keeps-lift, Keeps-gets, Keeps-pure,
  Keeps-Bool, Keeps-cond, Ensures, returned, Ensures-any, Ensures-continue,
}
use package.ros_webrtc_bridge.Session.Guard
use package.ros_webrtc_bridge.Session.Guard.{CommandGuard}
use package.ros_webrtc_bridge.Router.Protocol.{Wire, fields, text_field}
use package.ros_webrtc_bridge.Router.RequestCache.{RequestCache}
use package.ros_webrtc_bridge.Router.SessionRouter.{
  subscribing, publishing, RouterBinding, VideoPort, Outside, SessionRouter, on_world, on_guard,
  new_id, entry_of,
}
use package.ros_webrtc_bridge.Router.SessionRouter.Sending.{remove_subscription}
use package.ros_webrtc_bridge.Router.SessionRouter.Operations.{
  find_publisher, handles, open_publisher, advertise, unsubscribe, own_publisher, arm,
  close_publisher, unadvertise, handle_operation, operation, starts_with,
}
use package.ros_webrtc_bridge.Router.SessionRouter.Invariant.{
  Respects, Sound, Keeps-world, Keeps-guard,
}
use package.ros_webrtc_bridge.Router.SessionRouter.Flushing.{remove_subscription-Keeps}
use package.ros_webrtc_bridge.Router.SessionRouter.Requests.{
  OnCache, Opening, opening-Ensures, subscribe-Keeps,
}

module _ {W N : Type 0} {P : W → Type 0} (C : RequestCache → Type 0) (out : Outside W N)
    (laws : Respects out P) where
  abbrev J : SessionRouter W N → Type 0
  J = Sound P (OnCache C)

  -- The router is `q` after a step that writes neither the tables nor the queue.
  Grown : SessionRouter W N → SessionRouter W N → Type 0
  Grown r q = J q × (handles q < q.max_handles)

  open_publisher-Ensures :
      (e : RouterBinding N) (r : SessionRouter W N)
      → J r
      → handles r < r.max_handles
      → Ensures J (λ _. Grown r) (open_publisher out e r)
  unfolding open_publisher new_id continue Grown
  open_publisher-Ensures e r s room = go e.binding.command_guard
    where
      guarded : (g : CommandGuard) → J (record r { guard = g })
      guarded g = record {
        world = s.world;
        kept = s.kept;
        queue = s.queue;
        tables = s.tables;
        named = s.named;
      }

      go :
          (lease : Option ℕ)
          → Ensures J
              (λ _ q. J q × (handles q < q.max_handles))
              ((elim lease as (λ _. Exec (SessionRouter W N) Text) [
                | none ↦ new_id
                | some lease_ms ↦ do
                  session_id ← gets (λ r. r.session_id)
                  on_guard out.guard_host (λ host.
                      Guard.open_handle host session_id e.binding.ros_topic (some lease_ms))
              ])
                r)
      go none = returned (
        record {
          world = s.world;
          kept = s.kept;
          queue = s.queue;
          tables = s.tables;
          named = s.named;
        },
        room,
      )
      go (some lease_ms) = Ensures-any _ (guarded _) (λ _ _. (guarded _, room))

  advertise-Keeps :
      (e : RouterBinding N) (request_id : Text) (r : SessionRouter W N)
      → J r
      → Opening out publishing e r
      → Ensures J (λ _. J) (advertise out e request_id r)
  unfolding advertise continue Grown
  advertise-Keeps e request_id r s o =
      Ensures-continue (open_publisher-Ensures e r s o.room) λ handle q (t, room).
        returned (record {
          world = t.world;
          kept = t.kept;
          queue = t.queue;
          tables = record {
            fits = omega (
              arith,
              length-put-le handle
                  (record {
                    entry = e;
                    guarded = is_some e.binding.command_guard;
                    seq = negsuc 0;
                    next_at = 0;
                  })
                  q.publishers,
            );
            listed = t.tables.listed;
            served = t.tables.served;
            apart = t.tables.apart;
            opened = t.tables.opened;
          };
          named = t.named;
        })

  unsubscribe-Keeps :
      (wire : Wire) (id : Text) → Keeps (Sound P (OnCache C)) (unsubscribe out wire id)
  unfolding unsubscribe
  unsubscribe-Keeps wire id = Keeps-then (lift (fields wire _)) _ (Keeps-lift _) λ _.
      Keeps-then (lift (text_field wire _)) _ (Keeps-lift _) λ stream_id.
        Keeps-then (remove_subscription out stream_id) _
          (remove_subscription-Keeps out laws (λ _ c _ _ h. h) stream_id) λ _. Keeps-pure _

  own_publisher-Keeps : (wire : Wire) → Keeps (Sound P (OnCache C)) (own_publisher out wire)
  unfolding own_publisher
  own_publisher-Keeps wire = Keeps-then (lift (fields wire _)) _ (Keeps-lift _) λ _.
      Keeps-then (lift (text_field wire _)) _ (Keeps-lift _) λ handle.
        Keeps-then (gets (find_publisher handle)) _ (Keeps-gets _) λ found.
          Keeps-then (lift found) _ (Keeps-lift _) λ publisher.
            Keeps-then (gets (entry_of out publisher.entry.binding.public_name publishing)) _
              (Keeps-gets _)
              λ may. Keeps-then (lift may) _ (Keeps-lift _) λ _. Keeps-pure (handle, publisher)

  arm-Keeps : (wire : Wire) (id : Text) → Keeps (Sound P (OnCache C)) (arm out wire id)
  unfolding arm
  arm-Keeps wire id =
      Keeps-then (own_publisher out wire) _ (own_publisher-Keeps wire) λ (handle, publisher).
        Keeps-then (ensure publisher.guarded _) _ (Keeps-lift _) λ _.
          Keeps-then (gets (λ r. r.session_id)) _ (Keeps-gets _) λ session_id.
            Keeps-then (on_guard out.guard_host (λ host. Guard.arm host session_id handle)) _
              (Keeps-guard P (OnCache C) out.guard_host (λ host. Guard.arm host session_id handle))
              λ lease. Keeps-then (gets (λ r. r.epoch)) _ (Keeps-gets _) λ epoch. Keeps-pure _

  unadvertise-Keeps :
      (wire : Wire) (id : Text) → Keeps (Sound P (OnCache C)) (unadvertise out wire id)
  unfolding unadvertise close_publisher
  unadvertise-Keeps wire id =
      Keeps-then (own_publisher out wire) _ (own_publisher-Keeps wire) λ (handle, publisher).
        Keeps-then (close_publisher out handle publisher) _
          (Keeps-Bool publisher.guarded _ _
            (Keeps-then (gets (λ r. r.session_id)) _ (Keeps-gets _) λ session_id.
              Keeps-guard P (OnCache C) out.guard_host (λ _. Guard.close_handle session_id handle))
            (Keeps-pure tt))
          λ _ r s. returned (record {
            world = s.world;
            kept = s.kept;
            queue = s.queue;
            tables = record {
              fits = omega (arith, length-delete-le handle r.publishers, s.tables.fits);
              listed = s.tables.listed;
              served = s.tables.served;
              apart = s.tables.apart;
              opened = s.tables.opened;
            };
            named = s.named;
          })

  handle_operation-Keeps :
      (wire : Wire) (id : Text) → Keeps (Sound P (OnCache C)) (handle_operation out wire id)
  unfolding handle_operation
  handle_operation-Keeps wire id =
      Keeps-cond (same_text wire.op (codes "arm")) _ _ (arm-Keeps wire id) (
        Keeps-cond (same_text wire.op (codes "unadvertise")) _ _ (unadvertise-Keeps wire id)
          (Keeps-lift _))

  -- An operation of the media plane, where it has one of this name.
  media-Keeps :
      (wire : Wire) (id : Text) (port : VideoPort W)
      → out.video ≡ some port
      → (prefix : Bool)
      → Keeps
          (Sound P (OnCache C))
          (elim (if prefix then some port.operation else none)
            as (λ _. Exec (SessionRouter W N) Wire) [
              | some run ↦ on_world (run wire id)
              | none ↦ handle_operation out wire id
            ])
  media-Keeps wire id port e true =
      Keeps-world P (OnCache C) (port.operation wire id)
        (λ w. laws.video_operation port wire id w e)
  media-Keeps wire id port e false = handle_operation-Keeps wire id

  pub operation-Keeps :
      (wire : Wire) (id : Text) → Keeps (Sound P (OnCache C)) (operation out wire id)
  unfolding operation
  operation-Keeps wire id =
      Keeps-cond (same_text wire.op (codes "subscribe")) _ _
        (λ r s.
          Ensures-continue (opening-Ensures C out laws subscribing wire r s)
            λ e q (t, o). subscribe-Keeps C out laws e id q t o)
        (Keeps-cond (same_text wire.op (codes "advertise")) _ _
          (λ r s.
            Ensures-continue (opening-Ensures C out laws publishing wire r s)
              λ e q (t, o). advertise-Keeps e id q t o)
          (Keeps-cond (same_text wire.op (codes "unsubscribe")) _ _ (unsubscribe-Keeps wire id)
            (video_or_handle out.video refl)))
    where
      video_or_handle :
          (v : Option (VideoPort W))
          → out.video ≡ v
          → Keeps
              (Sound P (OnCache C))
              (elim (elim v as (λ _. Option (Wire → Text → Exec W Wire)) [
                | none ↦ none
                | some port ↦
                    if starts_with (codes "video.") wire.op then some port.operation else none
              ])
                as (λ _. Exec (SessionRouter W N) Wire) [
                  | some run ↦ on_world (run wire id)
                  | none ↦ handle_operation out wire id
                ])
      video_or_handle none e = handle_operation-Keeps wire id
      video_or_handle (some port) e =
          media-Keeps wire id port e (starts_with (codes "video.") wire.op)
