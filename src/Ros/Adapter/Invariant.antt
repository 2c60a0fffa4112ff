-- ===== src/Ros/Adapter/Invariant.antt =====
-- ros/adapter.ts: what holds of an adapter between its calls.
use mathlib.Core.Path.{subst}
use mathlib.Core.List.{Memᴰ}
use package.ros_webrtc_bridge.Prelude.{
  ℕ, ◌≡◌, Bool, true, false, none, some, List, [], All, Text, text_discrete, arith,
}
use package.ros_webrtc_bridge.Prelude.Dict.{lookup, put, lookup-put}
use package.ros_webrtc_bridge.Runtime.Outcome.{ok}
use package.ros_webrtc_bridge.Config
use package.ros_webrtc_bridge.Config.{TopicBinding, RosQos}
use package.ros_webrtc_bridge.Ros.Adapter.{
  Callback, new, running, closed, Registration, Adapter, Outside, is_web_to_ros, entity_key, start,
  subscribe, unsubscribe, publish, close,
}

module _ {W N P : Type 0} (out : Outside W N P) where
  -- A call of the adapter by its users, which may throw, or what happens outside.
  pub data Act (a : Adapter W N P) : Adapter W N P → Type 0 where
    started : Act a (start out a).1
    subscribed : (name : Text) (c : Callback) → Act a (subscribe name c a).1
    unsubscribed : (name : Text) (c : Callback) → Act a (unsubscribe name c a)
    published : (name : Text) (native : N) → Act a (publish out name native a).1
    closed_down : Act a (close out a).1
    moved : (world : W) → Act a (record a { world = world })

  pub data Acts (a : Adapter W N P) : Adapter W N P → Type 0 where
    still : Acts a a
    also : {b c : Adapter W N P} → Acts a b → Act b c → Acts a c

module _ {W N P : Type 0} (out : Outside W N P) (For : P → Text → Text → RosQos → Type 0) where
  abbrev pub IsFor : P → Registration N → Type 0
  IsFor p e = For p e.binding.ros_type e.binding.ros_topic e.binding.ros_qos

  -- A registration has its entity: a publisher for its type, topic and QoS under its key, or a place among
  -- the aliases of the subscription under its key; the flag says which.
  abbrev pub HasEntity :
      Bool → List (Text × P) → List (Text × List Text) → Text → Registration N → Type 0
  HasEntity true publishers aliases name e =
      (p : P) × (lookup (entity_key out e) publishers ≡ some p) × IsFor p e
  HasEntity false publishers aliases name e =
      (names : List Text) × (lookup (entity_key out e) aliases ≡ some names) × Memᴰ name names

  abbrev pub Opened : List (Text × P) → List (Text × List Text) → Text × Registration N → Type 0
  Opened publishers aliases (name, e) =
      HasEntity (is_web_to_ros e.binding.direction) publishers aliases name e

  -- Every registered name has a set of listeners.
  abbrev pub Listed : Adapter W N P → Type 0
  Listed a =
      (name : Text) (e : Registration N)
      → lookup name a.registrations ≡ some e
      → (listeners : List Callback) × (lookup name a.listeners ≡ some listeners)

  -- Before the start there are no entities; while it runs every registration has its own and every name
  -- its listeners; and when it is closed neither publishers nor listeners are left.
  pub record Sound (a : Adapter W N P) : Type 0 where
    pub fresh : a.state ≡ new → (a.publishers ≡ []) × Listed a
    pub ready : a.state ≡ running → All (Opened a.publishers a.aliases) a.registrations × Listed a
    pub ended : a.state ≡ closed → (a.publishers ≡ []) × (a.listeners ≡ [])

  abbrev pub IsStarted : Adapter W N P → Type 0
  IsStarted a = Sound a × (a.state ≡ running)

  -- The backend makes the publisher that it is asked for, `JSON.stringify` tells different values apart,
  -- and a callback that is called changes the adapter by calls of its methods alone.
  pub record Documented : Type 0 where
    pub creates :
        (type topic : Text) (qos : RosQos) (p : P) (w w' : W)
        → out.create_publisher type topic qos w ≡ (ok p, w')
        → For p type topic qos
    pub injective :
        {t t' n n' : Text} {d d' : ℕ} {r r' : Config.Reliability} {u u' : Config.Durability}
        → out.stringify t n d r u ≡ out.stringify t' n' d' r' u'
        → (t ≡ t') × (n ≡ n') × (d ≡ d') × (r ≡ r') × (u ≡ u')
    pub calls : (c : Callback) (native : N) (a : Adapter W N P) → Acts out a (out.call c native a).1

  -- Every publisher is the one of some registration with its key.
  abbrev pub Made : List (Text × P) → Type 0
  Made publishers =
      (k : Text) (p : P)
      → lookup k publishers ≡ some p
      → (e : Registration N) × (entity_key out e ≡ k) × IsFor p e

  pub put-publisher :
      (k : Text) (p : P) (publishers : List (Text × P)) (aliases : List (Text × List Text))
      (b : Bool) (name : Text) (e : Registration N)
      → lookup k publishers ≡ none
      → HasEntity b publishers aliases name e
      → HasEntity b (put k p publishers) aliases name e
  put-publisher k p publishers aliases true name e absent (q, there, for) =
      (q, ground (arith, lookup-put (entity_key out e) k p publishers), for)
  put-publisher k p publishers aliases false name e absent h = h

  pub put-Made :
      (e : Registration N) (p : P) (publishers : List (Text × P))
      → IsFor p e
      → Made publishers
      → Made (put (entity_key out e) p publishers)
  put-Made e p publishers for made k q h = elim (text_discrete (entity_key out e) k) [
    | yes same ↦ (
      e,
      same,
      subst (λ x. IsFor x e) (ground (arith, lookup-put k (entity_key out e) p publishers)) for,
    )
    | no other ↦ made k q (ground (arith, lookup-put k (entity_key out e) p publishers))
  ]

  -- A name more under a key.
  pub put-aliases :
      (k : Text) (more : List Text) (publishers : List (Text × P))
      (aliases : List (Text × List Text))
      → ((names : List Text)
          → lookup k aliases ≡ some names
          → (m : Text) → Memᴰ m names
          → Memᴰ m more)
      → (b : Bool) (name : Text) (e : Registration N) → HasEntity b publishers aliases name e
      → HasEntity b publishers (put k more aliases) name e
  put-aliases k more publishers aliases grows true name e h = h
  put-aliases k more publishers aliases grows false name e (found, there, listed) =
      elim (text_discrete k (entity_key out e)) [
        | yes same ↦ (
          more,
          ground (arith, lookup-put (entity_key out e) k more aliases),
          grows found (rw same there) name listed,
        )
        | no other ↦ (found, ground (arith, lookup-put (entity_key out e) k more aliases), listed)
      ]
