-- ===== src/Router/SessionRouter/Operations.antt =====
-- router/index.ts: the control messages.
use package.ros_webrtc_bridge.Prelude.{
  ℕ, ◌+◌, ◌*◌, Bool, true, false, not, ◌&&◌, Option, none, some, List, [], ◌∷◌, if◌then◌else◌,
  is_some, length, ltb, Text, codes, same_text, negsuc,
}
use package.ros_webrtc_bridge.Prelude.Dict.{lookup, put, delete, keep, values}
use package.ros_webrtc_bridge.Runtime.Outcome.{
  Outcome, throw, or_throw, handle_limit, unknown_handle, lease_not_required, unknown_operation,
  already_welcomed, hello_required, request_id_required,
}
use package.ros_webrtc_bridge.Runtime.Exec.{
  Exec, pure, lift, gets, ensure, modify, continue, recover, attempt, ◌>>=◌, ◌>>◌,
}
use package.ros_webrtc_bridge.Runtime.Decimal.{print}
use package.ros_webrtc_bridge.Config.{Direction, ros_to_web, web_to_ros, QueuePolicy}
use package.ros_webrtc_bridge.Session.Queue.{register, enqueue, close_stream}
use package.ros_webrtc_bridge.Session.Guard
use package.ros_webrtc_bridge.Session.Guard.{Lease}
use package.ros_webrtc_bridge.Router.Protocol.{Wire, Value, text, other, fields, text_field}
use package.ros_webrtc_bridge.Router.RequestCache
use package.ros_webrtc_bridge.Router.SessionRouter.{
  Operation, subscribing, publishing, RouterBinding, Outside, SessionRouter, Publisher,
  control_stream, on_world, on_queue, on_cache, on_guard, new_id, now, allowed, entry_of,
  encode_wire,
}
use package.ros_webrtc_bridge.Router.SessionRouter.Sending.{
  find_subscription, remove_subscription, respond,
}

abbrev pub policy_text : QueuePolicy → Text
policy_text QueuePolicy.latest = codes "latest"
policy_text QueuePolicy.fifo = codes "reliable"

abbrev pub starts_with : Text → Text → Bool
starts_with [] t = true
starts_with (p ∷ ps) [] = false
starts_with (p ∷ ps) (c ∷ cs) = same_text (p ∷ []) (c ∷ []) && starts_with ps cs

abbrev pub serves : Direction → Operation
serves ros_to_web = subscribing
serves web_to_ros = publishing

module _ {W N : Type 0} where
  unfoldable pub find_publisher : Text → SessionRouter W N → Outcome (Publisher N)
  unfolding lookup
  find_publisher handle r = or_throw (lookup handle r.publishers) unknown_handle

  abbrev pub handles : SessionRouter W N → ℕ
  handles r = length r.subscriptions + length r.publishers

module _ {W N : Type 0} (out : Outside W N) where
  -- The listener is registered; a refusal gives the queue's stream back.
  unfoldable pub listen : Text → RouterBinding N → Exec (SessionRouter W N) (Unit {0})
  unfolding continue recover
  listen id entry =
      attempt
        (do
          on_world (out.ros_subscribe entry.binding.public_name id)
          modify (λ r. record r {
            subscriptions =
                put id (record { entry = entry; ready = false; seq = 0; next_at = 0 })
                  r.subscriptions;
          }))
        (λ e. on_queue (close_stream id) >> lift (throw e))

  unfoldable pub subscribe : RouterBinding N → Text → Exec (SessionRouter W N) Wire
  unfolding continue
  subscribe entry request_id = do
    id ← new_id
    on_queue (register id (policy_text entry.binding.policy) entry.binding.max_messages)
    listen id entry
    epoch ← gets (λ r. r.epoch)
    pure (record {
      op = codes "subscribed";
      rest =
          (codes "id", text request_id)
          ∷ (codes "stream_id", text id)
          ∷ (codes "epoch", text epoch)
          ∷ (codes "schema_id", text entry.schema_id)
          ∷ [];
    })

  -- A guarded topic's handle is the guard's, another's is the router's.
  unfoldable pub open_publisher : RouterBinding N → Exec (SessionRouter W N) Text
  unfolding continue
  open_publisher entry = elim entry.binding.command_guard [
    | none ↦ new_id
    | some lease_ms ↦ do
      session_id ← gets (λ r. r.session_id)
      on_guard out.guard_host
          (λ host. Guard.open_handle host session_id entry.binding.ros_topic (some lease_ms))
  ]

  unfoldable pub advertise : RouterBinding N → Text → Exec (SessionRouter W N) Wire
  unfolding continue
  advertise entry request_id = do
    handle ← open_publisher entry
    let publisher : Publisher N = record {
      entry = entry;
      guarded = is_some entry.binding.command_guard;
      seq = negsuc 0;
      next_at = 0;
    }
    modify (λ r. record r { publishers = put handle publisher r.publishers })
    epoch ← gets (λ r. r.epoch)
    pure (record {
      op = codes "advertised";
      rest =
          (codes "id", text request_id)
          ∷ (codes "handle", text handle)
          ∷ (codes "epoch", text epoch)
          ∷ (codes "schema_id", text entry.schema_id)
          ∷ [];
    })

  -- `subscribe` and `advertise` up to the branch between them.
  unfoldable pub opening : Operation → Wire → Exec (SessionRouter W N) (RouterBinding N)
  unfolding continue
  opening operation wire = do
    lift (fields wire (codes "id" ∷ codes "topic" ∷ []))
    topic ← lift (text_field wire (codes "topic"))
    found ← gets (entry_of out topic operation)
    entry ← lift found
    count ← gets handles
    max_handles ← gets (λ r. r.max_handles)
    ensure (ltb count max_handles) handle_limit
    pure entry

  unfoldable pub unsubscribe : Wire → Text → Exec (SessionRouter W N) Wire
  unfolding continue
  unsubscribe wire id = do
    lift (fields wire (codes "id" ∷ codes "stream_id" ∷ []))
    stream_id ← lift (text_field wire (codes "stream_id"))
    remove_subscription out stream_id
    pure (record { op = codes "unsubscribed"; rest = (codes "id", text id) ∷ [] })

  -- `arm` and `unadvertise` up to the branch between them.
  unfoldable pub own_publisher : Wire → Exec (SessionRouter W N) (Text × Publisher N)
  unfolding continue
  own_publisher wire = do
    lift (fields wire (codes "id" ∷ codes "handle" ∷ []))
    handle ← lift (text_field wire (codes "handle"))
    found ← gets (find_publisher handle)
    publisher ← lift found
    may ← gets (entry_of out publisher.entry.binding.public_name publishing)
    lift may
    pure (handle, publisher)

  unfoldable pub arm : Wire → Text → Exec (SessionRouter W N) Wire
  unfolding continue
  arm wire id = do
    (handle, publisher) ← own_publisher wire
    ensure publisher.guarded lease_not_required
    session_id ← gets (λ r. r.session_id)
    lease ← on_guard out.guard_host (λ host. Guard.arm host session_id handle)
    epoch ← gets (λ r. r.epoch)
    pure (record {
      op = codes "lease";
      rest =
          (codes "id", text id)
          ∷ (codes "handle", text handle)
          ∷ (codes "epoch", text epoch)
          ∷ (codes "lease_id", text lease.id)
          ∷ (codes "expires_at", other (print lease.expires_at))
          ∷ [];
    })

  unfoldable pub close_publisher : Text → Publisher N → Exec (SessionRouter W N) (Unit {0})
  unfolding continue
  close_publisher handle publisher = elim publisher.guarded [
    | false ↦ pure tt
    | true ↦ do
      session_id ← gets (λ r. r.session_id)
      on_guard out.guard_host (λ _. Guard.close_handle session_id handle)
  ]

  unfoldable pub unadvertise : Wire → Text → Exec (SessionRouter W N) Wire
  unfolding continue
  unadvertise wire id = do
    (handle, publisher) ← own_publisher wire
    close_publisher handle publisher
    modify (λ r. record r { publishers = delete handle r.publishers })
    pure (record { op = codes "unadvertised"; rest = (codes "id", text id) ∷ [] })

  abbrev pub video_operation : Wire → Option (Wire → Text → Exec W Wire)
  video_operation wire = elim out.video [
    | none ↦ none
    | some port ↦ if starts_with (codes "video.") wire.op then some port.operation else none
  ]

  -- The operations on a handle, behind those of the media plane.
  unfoldable pub handle_operation : Wire → Text → Exec (SessionRouter W N) Wire
  handle_operation wire id =
      if same_text wire.op (codes "arm")
      then arm wire id
      else if same_text wire.op (codes "unadvertise")
      then unadvertise wire id
      else lift (throw unknown_operation)

  unfoldable pub operation : Wire → Text → Exec (SessionRouter W N) Wire
  unfolding continue
  operation wire id =
      if same_text wire.op (codes "subscribe")
      then (do entry ← opening subscribing wire; subscribe entry id)
      else if same_text wire.op (codes "advertise")
      then (do entry ← opening publishing wire; advertise entry id)
      else if same_text wire.op (codes "unsubscribe")
      then unsubscribe wire id
      else elim (video_operation wire) [
        | some run ↦ on_world (run wire id)
        | none ↦ handle_operation wire id
      ]

  abbrev pub video_fields : Option Text → List (Text × Value)
  video_fields none = []
  video_fields (some json) = (codes "video", other json) ∷ []

  abbrev pub video_catalog : W → Option Text
  video_catalog world = elim out.video [ none ↦ none | some port ↦ port.catalog world ]

  abbrev pub visible : SessionRouter W N → List (RouterBinding N)
  visible r = values (
      keep (λ (entry : RouterBinding N). allowed out entry (serves entry.binding.direction) r.world)
        r.entries)

  unfoldable pub hello : Wire → Exec (SessionRouter W N) (Unit {0})
  unfolding continue
  hello wire = do
    lift (fields wire [])
    welcomed ← gets (λ r. r.welcomed)
    ensure (not welcomed) already_welcomed
    answer ← gets (λ (r : SessionRouter W N). record {
      op = codes "welcome";
      rest =
          (codes "epoch", text r.epoch)
          ∷ (codes "catalog", other (out.catalog_json (visible r)))
          ∷ video_fields (video_catalog r.world);
    })
    respond out answer
    modify (λ r. record r { welcomed = true })

  unfoldable pub ready : Wire → Exec (SessionRouter W N) (Unit {0})
  unfolding continue
  ready wire = do
    lift (fields wire (codes "stream_id" ∷ []))
    stream_id ← lift (text_field wire (codes "stream_id"))
    found ← gets (find_subscription stream_id)
    subscription ← lift found
    modify (λ r. record r {
      subscriptions = put stream_id (record subscription { ready = true }) r.subscriptions;
    })

  -- A new request is run, and its answer is kept before it is sent.
  unfoldable pub execute : Wire → Text → ℕ → Exec (SessionRouter W N) (Unit {0})
  unfolding continue
  execute wire id time = do
    max_bytes ← gets (λ r. r.max_bytes)
    room ← gets (λ r. RequestCache.reserve (max_bytes + length (out.stringify wire) * 2) r.cache)
    lift room
    response ← operation wire id
    bytes ← lift (encode_wire out response max_bytes)
    modify (λ r. record r { cache = RequestCache.store id (out.stringify wire) bytes time r.cache })
    on_queue (enqueue control_stream bytes)
    pure tt

  -- The tail of `control`: a request that was answered before is answered from the cache.
  unfoldable pub request : Wire → Text → Exec (SessionRouter W N) (Unit {0})
  unfolding continue
  request wire id = do
    time ← now out
    cached ← on_cache (RequestCache.reclaim id (out.stringify wire) time)
    elim cached [
      | some bytes ↦ on_queue (enqueue control_stream bytes) >> pure tt
      | none ↦ execute wire id time
    ]

  unfoldable pub control : Wire → Option Text → Exec (SessionRouter W N) (Unit {0})
  unfolding continue
  control wire id = if same_text wire.op (codes "hello") then hello wire else (do
    welcomed ← gets (λ r. r.welcomed)
    ensure welcomed hello_required
    if same_text wire.op (codes "ready")
        then ready wire
        else (do request_id ← lift (or_throw id request_id_required); request wire request_id))
