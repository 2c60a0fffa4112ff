-- ===== src/Router/SessionRouter/Invariant.antt =====
-- router/index.ts: what holds of a router between its calls, and the small steps that keep it.
use package.ros_webrtc_bridge.Prelude.{
  ℕ, ◌+◌, ◌≤◌, ◌≡◌, ◌⊎◌, sym, ◌∙◌, Bool, true, false, ◌||◌, ltb, if_cases, none, some, List, [],
  is_some, length, Text, inl, inr, arith,
}
use package.ros_webrtc_bridge.Prelude.Dict.{
  lookup, put, delete, lookup-put, lookup-put_ne, length-put_old,
}
use package.ros_webrtc_bridge.Runtime.Outcome.{
  Reading, at, below_zero, not_finite, max_safe_integer,
}
use package.ros_webrtc_bridge.Runtime.Exec.{Exec, Keeps, Ensures, returned, threw, Ensures-any}
use package.ros_webrtc_bridge.Session.Queue.{DeliveryQueue, Bytes, enqueue, dequeue}
use package.ros_webrtc_bridge.Session.Queue.Accounting.{IsValid}
use package.ros_webrtc_bridge.Session.Queue.Traffic.{enqueue-IsValid, dequeue-IsValid}
use package.ros_webrtc_bridge.Session.Queue.Names.{
  is_stream, SameStreams, enqueue-SameStreams, dequeue-SameStreams,
}
use package.ros_webrtc_bridge.Session.Guard.{CommandGuard, Host}
use package.ros_webrtc_bridge.Router.Protocol.{Wire}
use package.ros_webrtc_bridge.Router.RequestCache.{RequestCache, clear}
use package.ros_webrtc_bridge.Router.SessionRouter.{
  Channel, subscribing, publishing, RouterBinding, VideoPort, Outside, Subscription, Publisher,
  SessionRouter, control_stream, on_world, on_queue, on_guard, read_time, now, new_id, allowed,
}

-- A property of the outside that its calls keep: the clock, sending, listeners and the media plane in any
-- case, a subscription and a publish to ROS where the peer is authorized for the topic and the direction.
pub record Respects {W N : Type 0} (out : Outside W N) (P : W → Type 0) : Type 0 where
  pub clock : (w : W) → P w → P (out.clock w).1
  pub send : (c : Channel) (b : Bytes) (w : W) → P w → P (out.send c b w).1
  pub unsubscribe : (id : Text) (w : W) → P w → P (out.unsubscribe id w).1
  pub on_closed : (w : W) → P w → P (out.on_closed w)
  pub video_operation :
      (port : VideoPort W) (wire : Wire) (id : Text) (w : W)
      → out.video ≡ some port
      → P w
      → P (port.operation wire id w).1
  pub video_revalidate :
      (port : VideoPort W) (w : W) → out.video ≡ some port → P w → P (port.revalidate w).1
  pub video_close : (port : VideoPort W) (w : W) → out.video ≡ some port → P w → P (port.close w).1
  pub ros_subscribe :
      (e : RouterBinding N) (id : Text) (w : W)
      → allowed out e subscribing w ≡ true
      → P w
      → P (out.ros_subscribe e.binding.public_name id w).1
  pub ros_publish :
      (e : RouterBinding N) (native : N) (w : W)
      → allowed out e publishing w ≡ true
      → P w
      → P (out.ros_publish e.binding.public_name native w).1

-- The subscriptions are the streams of the queue but the control stream, which is there while the router
-- is open, and with the publishers they are within the limit of handles.
pub record Tables {N : Type 0} (subscriptions : List (Text × Subscription N))
    (publishers : List (Text × Publisher N)) (q : DeliveryQueue) (closed : Bool) (max_handles : ℕ)
    : Type 0 where
  pub fits : length subscriptions + length publishers ≤ max_handles
  pub listed :
      (k : Text)
      → is_stream k q ≡ true
      → (k ≡ control_stream) ⊎ (is_some (lookup k subscriptions) ≡ true)
  pub served : (k : Text) → is_some (lookup k subscriptions) ≡ true → is_stream k q ≡ true
  pub apart : lookup control_stream subscriptions ≡ none
  pub opened : closed ≡ false → is_stream control_stream q ≡ true

abbrev pub Named : {N : Type 0} → List (Text × RouterBinding N) → Type 0
Named entries =
    (k : Text) (e : RouterBinding _) → lookup k entries ≡ some e → e.binding.public_name ≡ k

-- What is known besides of the cache and the tables.
abbrev pub Kept : Type 0 → Type 1
Kept N = RequestCache → List (Text × Subscription N) → List (Text × Publisher N) → Type 0

-- What is kept is kept when a subscription goes, and when all goes.
abbrev pub Removed : {N : Type 0} → Kept N → Type 0
Removed K =
    (id : Text) (c : RequestCache) (s : List (Text × Subscription _))
    (p : List (Text × Publisher _))
    → K c s p
    → K c (delete id s) p

abbrev pub Cleared : {N : Type 0} → Kept N → Type 0
Cleared K =
    (c : RequestCache) (s : List (Text × Subscription _)) (p : List (Text × Publisher _))
    → K c s p
    → K (clear c) [] []

-- `P` holds of the outside, `K` of the cache and the tables, and the rest of every router.
module _ {W N : Type 0} (P : W → Type 0) (K : Kept N) where
  pub record Sound (r : SessionRouter W N) : Type 0 where
    pub world : P r.world
    pub kept : K r.cache r.subscriptions r.publishers
    pub queue : IsValid r.queue
    pub tables : Tables r.subscriptions r.publishers r.queue r.closed r.max_handles
    pub named : Named r.entries

-- The queue's streams are the same, or the closing of the router has nothing to say of them.
pub Tables-queue :
    {N : Type 0} (s : List (Text × Subscription N)) (p : List (Text × Publisher N))
    (q q' : DeliveryQueue) (closed : Bool) (max : ℕ)
    → SameStreams q q'
    → Tables s p q closed max
    → Tables s p q' closed max
Tables-queue s p q q' closed max same t = record {
  fits = t.fits;
  listed = λ k h. t.listed k (sym (same k) ∙ h);
  served = λ k h. same k ∙ t.served k h;
  apart = t.apart;
  opened = λ h. same control_stream ∙ t.opened h;
}

-- An object of a table is written.
pub Tables-subscription :
    {N : Type 0} (s : List (Text × Subscription N)) (p : List (Text × Publisher N))
    (q : DeliveryQueue) (closed : Bool) (max : ℕ) (id : Text) (old new : Subscription N)
    → lookup id s ≡ some old
    → Tables s p q closed max
    → Tables (put id new s) p q closed max
Tables-subscription s p q closed max id old new e t = record {
  fits = omega (arith, length-put_old id new old s e, t.fits);
  listed = λ k h. elim (t.listed k h) [ inl c ↦ inl c | inr i ↦ inr (same k ∙ i) ];
  served = λ k h. t.served k (sym (same k) ∙ h);
  apart = lookup-put_ne control_stream id new s (λ p. absurd (cc (t.apart))) ∙ t.apart;
  opened = t.opened;
}
  where
    same : (k : Text) → is_some (lookup k (put id new s)) ≡ is_some (lookup k s)
    same k = ground (arith, lookup-put k id new s)

module _ {W N : Type 0} (P : W → Type 0) (K : Kept N) where
  pub world-Sound :
      (r : SessionRouter W N) (w : W) → P w → Sound P K r → Sound P K (record r { world = w })
  world-Sound r w p s = record {
    world = p;
    kept = s.kept;
    queue = s.queue;
    tables = s.tables;
    named = s.named;
  }

  pub Keeps-world :
      {A : Type 0} (m : Exec W A)
      → ((w : W) → P w → P (m w).1)
      → Keeps (Sound {N = N} P K) (on_world m)
  Keeps-world m h r s =
      let after = world-Sound r (m r.world).1 (h r.world s.world) s in
      Ensures-any _ after (λ _ _. after)

  pub Keeps-guard :
      {A : Type 0} (host : W → Host) (m : Host → Exec CommandGuard A)
      → Keeps (Sound {N = N} P K) (on_guard host m)
  Keeps-guard host m r s =
      let after : Sound P K (record r { guard = (m (host r.world) r.guard).1 }) = record {
        world = s.world;
        kept = s.kept;
        queue = s.queue;
        tables = s.tables;
        named = s.named;
      } in
      Ensures-any _ after (λ _ _. after)

  pub Keeps-enqueue : (id : Text) (b : Bytes) → Keeps (Sound {N = N} P K) (on_queue (enqueue id b))
  Keeps-enqueue id b r s =
      let after : Sound P K (record r { queue = (enqueue id b r.queue).1 }) = record {
        world = s.world;
        kept = s.kept;
        queue = enqueue-IsValid r.queue id b s.queue;
        tables = Tables-queue _ _ _ _ _ _ (enqueue-SameStreams id b r.queue) s.tables;
        named = s.named;
      } in
      Ensures-any _ after (λ _ _. after)

  pub Keeps-dequeue : (id : Text) → Keeps (Sound {N = N} P K) (on_queue (dequeue id))
  Keeps-dequeue id r s =
      let after : Sound P K (record r { queue = (dequeue id r.queue).1 }) = record {
        world = s.world;
        kept = s.kept;
        queue = dequeue-IsValid r.queue id s.queue;
        tables = Tables-queue _ _ _ _ _ _ (dequeue-SameStreams id r.queue) s.tables;
        named = s.named;
      } in
      Ensures-any _ after (λ _ _. after)

  pub Keeps-new_id : Keeps (Sound {N = N} P K) new_id
  unfolding new_id
  Keeps-new_id r s = returned (record {
    world = s.world;
    kept = s.kept;
    queue = s.queue;
    tables = s.tables;
    named = s.named;
  })

  Keeps-read_time : (reading : Reading) → Keeps (Sound {N = N} P K) (read_time reading)
  unfolding read_time
  Keeps-read_time (at value) r s =
      if_cases (Ensures (Sound P K) (λ _. Sound P K))
        (ltb value r.last_time || ltb max_safe_integer (value + r.request_ttl_ms)) (λ _. threw s)
        (λ _. returned (record {
          world = s.world;
          kept = s.kept;
          queue = s.queue;
          tables = s.tables;
          named = s.named;
        }))
  Keeps-read_time below_zero r s = threw s
  Keeps-read_time not_finite r s = threw s

  pub Keeps-now : (out : Outside W N) → Respects out P → Keeps (Sound P K) (now out)
  unfolding now
  Keeps-now out laws r s =
      Keeps-read_time (out.clock r.world).0 _
        (world-Sound r (out.clock r.world).1 (laws.clock r.world s.world) s)

module _ {W N : Type 0} {P : W → Type 0} {K L : Kept N} where
  pub Sound-map :
      (r : SessionRouter W N)
      → (K r.cache r.subscriptions r.publishers → L r.cache r.subscriptions r.publishers)
      → Sound P K r
      → Sound P L r
  Sound-map r f s = record {
    world = s.world;
    kept = f s.kept;
    queue = s.queue;
    tables = s.tables;
    named = s.named;
  }
