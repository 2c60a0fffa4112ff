-- ===== src/Ros/Adapter.antt =====
-- packages/bridge/src/ros/adapter.ts: the class `TopicRosAdapter`.
--
-- A callback is a number, which is its identity; what calling one does is the outside's, and it may do
-- anything to the adapter. The arrays of aliases that `start` makes, and that the native callbacks keep,
-- are the field `aliases`. A set of listeners is made once, by the constructor, and emptied by `close`,
-- so that the set an unsubscribe function keeps is the one in the map, or an empty one.
pub mod Receiving
pub mod Invariant
pub mod Starting
pub mod Keeping
pub mod Lifetime
pub mod Leaving
pub mod Turns
pub mod Delivery
mod Tests
use package.ros_webrtc_bridge.Prelude.{
  ℕ, Bool, true, false, not, ◌||◌, Option, none, some, is_some, List, [], ◌∷◌, ◌++◌, ◌==◌,
  if◌then◌else◌, Text, text_discrete, any,
}
use package.ros_webrtc_bridge.Prelude.Dict.{lookup, put}
use package.ros_webrtc_bridge.Runtime.Outcome.{
  Error, Outcome, ok, throw, require, or_throw, type_error, duplicate_ros_registration,
  ros_adapter_not_new, ros_adapter_not_running, ros_binding_denied, ros_start_cleanup_failed,
}
use package.ros_webrtc_bridge.Runtime.Exec.{
  Exec, pure, lift, gets, ensure, modify, continue, recover, attempt, ◌>>=◌, ◌>>◌,
}
use package.ros_webrtc_bridge.Config
use package.ros_webrtc_bridge.Config.{Direction, ros_to_web, web_to_ros, TopicBinding, RosQos}
use package.ros_webrtc_bridge.Router.SessionRouter.{Codec}

abbrev pub Callback : Type 0
Callback = ℕ

pub data Life : Type 0 where
  new running closed : Life

pub record Registration (N : Type 0) : Type 0 where
  pub binding : TopicBinding
  pub codec : Codec N

pub record Adapter (W N P : Type 0) : Type 0 where
  pub registrations : List (Text × Registration N)
  pub listeners : List (Text × List Callback)
  pub publishers : List (Text × P)
  pub aliases : List (Text × List Text)
  pub state : Life
  pub world : W

-- The backend, the callbacks, `onError`, and `JSON.stringify` of an entity's six values, of
-- which `history` is always the same. A native
-- subscription is made with the key that its callback is to deliver for.
pub record Outside (W N P : Type 0) : Type 0 where
  pub create_publisher : Text → Text → RosQos → Exec W P
  pub create_subscription : Text → Text → RosQos → Text → Exec W (Unit {0})
  pub native_publish : P → N → Exec W (Unit {0})
  pub spin : Exec W (Unit {0})
  pub close_backend : Exec W (Unit {0})
  pub on_error : Error → Exec W (Unit {0})
  pub call : Callback → N → Exec (Adapter W N P) (Unit {0})
  pub stringify : Text → Text → ℕ → Config.Reliability → Config.Durability → Text

abbrev pub is_web_to_ros : Direction → Bool
is_web_to_ros web_to_ros = true
is_web_to_ros ros_to_web = false

abbrev pub same_direction : Direction → Direction → Bool
same_direction web_to_ros d = is_web_to_ros d
same_direction ros_to_web d = not (is_web_to_ros d)

abbrev pub is_new : Life → Bool
is_new new = true
is_new _ = false

abbrev pub is_running : Life → Bool
is_running running = true
is_running _ = false

abbrev pub is_closed : Life → Bool
is_closed closed = true
is_closed _ = false

-- `listeners.add(callback)`
abbrev pub add : Callback → List Callback → List Callback
add c cs = if any (◌==◌ c) cs then cs else cs ++ c ∷ []

-- `listeners.delete(callback)`
unfoldable pub remove : Callback → List Callback → List Callback
remove c [] = []
remove c (d ∷ ds) = let rest = remove c ds in if c == d then rest else d ∷ rest

-- `codec.decode(codec.encode(native))`
abbrev pub copy : {N : Type 0} → Registration N → N → Outcome N
copy entry native = elim (entry.codec.encode native) [
  | throw e ↦ throw e
  | ok wire ↦ entry.codec.decode (some wire)
]

module _ {W N P : Type 0} where
  abbrev pub entered : Registration N → Adapter W N P → Adapter W N P
  unfolding put
  entered entry a = record a {
    registrations = put entry.binding.public_name entry a.registrations;
    listeners = put entry.binding.public_name [] a.listeners;
  }

  -- The loop of the constructor.
  unfoldable pub register_all : List (Registration N) → Adapter W N P → Outcome (Adapter W N P)
  unfolding lookup put
  register_all [] a = ok a
  register_all (entry ∷ more) a =
      let next = register_all more (entered entry a) in
      if is_some (lookup entry.binding.public_name a.registrations)
      then throw duplicate_ros_registration
      else next

  unfoldable pub construct : List (Registration N) → W → Outcome (Adapter W N P)
  unfolding register_all
  construct registry world = register_all registry (record {
    registrations = [];
    listeners = [];
    publishers = [];
    aliases = [];
    state = new;
    world = world;
  })

  -- A value that is read from the state, or a throw.
  abbrev pub query : {A : Type 0} → (Adapter W N P → Outcome A) → Exec (Adapter W N P) A
  query f a = (f a, a)

  abbrev pub on_world {ℓ} : {A : Type ℓ} → (W → A × W) → Adapter W N P → A × Adapter W N P
  on_world f a = ((f a.world).0, record a { world = (f a.world).1 })

  unfoldable pub registration : Text → Direction → Adapter W N P → Outcome (Registration N)
  unfolding lookup
  registration name direction a =
      if not (is_running a.state)
      then throw ros_adapter_not_running
      else elim (lookup name a.registrations) [
        | none ↦ throw ros_binding_denied
        | some entry ↦
            if same_direction entry.binding.direction direction
            then ok entry
            else throw ros_binding_denied
      ]

  unfoldable pub subscribe : Text → Callback → Exec (Adapter W N P) (Unit {0})
  unfolding registration lookup put continue
  subscribe name callback = do
    entry ← query (registration name ros_to_web)
    listeners ← query (λ a. or_throw (lookup name a.listeners) type_error)
    modify (λ a. record a { listeners = put name (add callback listeners) a.listeners })

  abbrev pub drop_listener :
      Text → Callback → Option (List Callback) → Adapter W N P → Adapter W N P
  unfolding put remove
  drop_listener name callback none a = a
  drop_listener name callback (some listeners) a = record a {
    listeners = put name (remove callback listeners) a.listeners;
  }

  -- What the function that `subscribe` returns does.
  unfoldable pub unsubscribe : Text → Callback → Adapter W N P → Adapter W N P
  unfolding lookup put remove
  unsubscribe name callback a = drop_listener name callback (lookup name a.listeners) a

module _ {W N P : Type 0} (out : Outside W N P) where
  unfoldable pub entity_key : Registration N → Text
  entity_key entry =
      let b : TopicBinding = entry.binding in
      out.stringify b.ros_topic b.ros_type b.ros_qos.depth b.ros_qos.reliability
        b.ros_qos.durability

  unfoldable pub close : Exec (Adapter W N P) (Unit {0})
  close a =
      if is_closed a.state
      then (ok tt, a)
      else on_world out.close_backend (record a { state = closed; listeners = []; publishers = [] })

  -- The body of the loop of `start`, in its two directions: with what the map of entities has under
  -- the key.
  abbrev pub open_publisher : Registration N → Option P → Exec (Adapter W N P) (Unit {0})
  unfolding entity_key put continue
  open_publisher entry (some existing) = pure tt
  open_publisher entry none = do
    let b = entry.binding
    publisher ← on_world (out.create_publisher b.ros_type b.ros_topic b.ros_qos)
    modify (λ a. record a { publishers = put (entity_key entry) publisher a.publishers })

  abbrev pub open_subscription :
      Text → Registration N → Option (List Text) → Exec (Adapter W N P) (Unit {0})
  unfolding entity_key put continue
  open_subscription name entry (some existing) = modify λ (a : Adapter W N P). record a {
    aliases = put (entity_key entry) (existing ++ name ∷ []) a.aliases;
  }
  open_subscription name entry none = do
    let b = entry.binding
    modify (λ a. record a { aliases = put (entity_key entry) (name ∷ []) a.aliases })
    on_world (out.create_subscription b.ros_type b.ros_topic b.ros_qos (entity_key entry))

  abbrev pub open_entity : Text → Registration N → Exec (Adapter W N P) (Unit {0})
  unfolding entity_key lookup put continue
  open_entity name entry a =
      if is_web_to_ros entry.binding.direction
      then open_publisher entry (lookup (entity_key entry) a.publishers) a
      else open_subscription name entry (lookup (entity_key entry) a.aliases) a

  unfoldable pub open_all : List (Text × Registration N) → Exec (Adapter W N P) (Unit {0})
  unfolding entity_key lookup put continue
  open_all [] = pure tt
  open_all ((name, entry) ∷ more) = open_entity name entry >> open_all more

  -- The body of `try`, and that of `catch`.
  unfoldable pub open_and_spin : Exec (Adapter W N P) (Unit {0})
  unfolding open_all continue
  open_and_spin = do
    entries ← gets (λ a. a.registrations)
    open_all entries
    modify (λ a. record a { state = running })
    on_world out.spin

  unfoldable pub abandon : Error → Exec (Adapter W N P) (Unit {0})
  unfolding close continue recover
  abandon error = do
    attempt close (λ cleanup. lift (throw ros_start_cleanup_failed))
    lift (throw error)

  unfoldable pub start : Exec (Adapter W N P) (Unit {0})
  unfolding open_and_spin abandon continue recover
  start a =
      if is_new a.state
      then attempt open_and_spin abandon (record a { aliases = [] })
      else (throw ros_adapter_not_new, a)

  -- What `publish` does with the registration that it finds.
  abbrev pub send_copy : N → Registration N → Exec (Adapter W N P) (Unit {0})
  unfolding entity_key lookup continue
  send_copy native entry = do
    normalized ← lift (copy entry native)
    publisher ← query (λ a. or_throw (lookup (entity_key entry) a.publishers) type_error)
    on_world (out.native_publish publisher normalized)

  unfoldable pub publish : Text → N → Exec (Adapter W N P) (Unit {0})
  unfolding registration entity_key lookup continue
  publish name native = do entry ← query (registration name web_to_ros); send_copy native entry
