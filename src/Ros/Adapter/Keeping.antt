-- ===== src/Ros/Adapter/Keeping.antt =====
-- ros/adapter.ts: every call of the adapter keeps its invariant.
use mathlib.Core.Path.{ap}
use package.ros_webrtc_bridge.Prelude.{
  ◌≡◌, refl, true, false, Option, none, some, is_some, List, [], ◌∷◌, Text, text_discrete, if_cases,
  arith,
}
use package.ros_webrtc_bridge.Prelude.Dict.{lookup, put, lookup-put}
use package.ros_webrtc_bridge.Runtime.Outcome.{Error, ok, or_throw, or_throw-some, type_error}
use package.ros_webrtc_bridge.Runtime.Exec.{
  Exec, continue, recover, lift, attempt, ◌>>=◌, Keeps, Keeps-then, Keeps-lift, Keeps-attempt,
  Keeps-if, Ensures, returned, threw, Ensures-any, Ensures-lift, Ensures-continue, Ensures-recover,
  Ensures-state,
}
use package.ros_webrtc_bridge.Router.Protocol.{Value}
use package.ros_webrtc_bridge.Router.SessionRouter.{Codec}
use package.ros_webrtc_bridge.Config.{RosQos, ros_to_web, web_to_ros}
use package.ros_webrtc_bridge.Ros.Adapter.{
  Callback, closed, Adapter, Outside, is_closed, is_new, is_running, on_world, close, abandon,
  start, add, remove, drop_listener, registration, subscribe, unsubscribe, copy, publish,
  entity_key,
}
use package.ros_webrtc_bridge.Ros.Adapter.Receiving.{
  report, has, notify_one, notify, deliver, receive, receive_all, sample_for, native_sample,
}
use package.ros_webrtc_bridge.Ros.Adapter.Invariant.{
  Act, started, subscribed, unsubscribed, published, closed_down, moved, Acts, still, also, Listed,
  Sound, IsStarted, Documented,
}
use package.ros_webrtc_bridge.Ros.Adapter.Starting.{open_and_spin-IsStarted}

module _ {W N P : Type 0} (out : Outside W N P) (For : P → Text → Text → RosQos → Type 0) where
  abbrev pub I : Adapter W N P → Type 0
  I = Sound out For

  pub world-Sound : (a : Adapter W N P) (w : W) → I a → I (record a { world = w })
  world-Sound a w s = record { fresh = s.fresh; ready = s.ready; ended = s.ended }

  pub on_world-Keeps : (f : Exec W (Unit {0})) → Keeps I (on_world f)
  on_world-Keeps f a s = Ensures-any (on_world f a) (world-Sound a _ s) λ _ _. world-Sound a _ s

  -- A change of the listeners while the adapter is not closed.
  pub listeners-Sound :
      (a : Adapter W N P) (name : Text) (more : List Callback)
      → is_some (lookup name a.listeners) ≡ true
      → I a
      → I (record a { listeners = put name more a.listeners })
  unfolding lookup
  listeners-Sound a name more known s =
      let listed : Listed out For a
          → Listed out For (record a { listeners = put name more a.listeners }) =
        λ l n e there. put_listed n (l n e there) in
      record {
        fresh = λ e. let (p, l) = s.fresh e in (p, listed l);
        ready = λ e. let (o, l) = s.ready e in (o, listed l);
        ended = λ e. let (p, l) = s.ended e in absurd (cc (known, rw l at known));
      }
    where
      put_listed :
          (n : Text)
          → (cs : List Callback) × (lookup n a.listeners ≡ some cs)
          → (cs : List Callback) × (lookup n (put name more a.listeners) ≡ some cs)
      put_listed n (cs, there) = elim (text_discrete name n) [
        | yes same ↦ (more, ground (arith, lookup-put n name more a.listeners))
        | no other ↦ (cs, ground (arith, lookup-put n name more a.listeners))
      ]

  pub closed-Sound :
      (a : Adapter W N P) → a.state ≡ closed → a.publishers ≡ [] → a.listeners ≡ [] → I a
  closed-Sound a e p l = record {
    fresh = λ f. absurd (cc (e, f));
    ready = λ f. absurd (cc (e, f));
    ended = λ _. (p, l);
  }

  shut_down :
      (a : Adapter W N P)
      → Ensures I
          (λ (_ : Unit {0}). I)
          (on_world out.close_backend
            (record a { state = closed; listeners = []; publishers = [] }))
  shut_down a =
      on_world-Keeps out.close_backend
        (record a { state = closed; listeners = []; publishers = [] })
        (closed-Sound (record a { state = closed; listeners = []; publishers = [] }) refl refl refl)

  -- From any state but the closed one, which need not be sound: a start that failed.
  pub close_down-Sound :
      (a : Adapter W N P)
      → is_closed a.state ≡ false
      → Ensures I (λ (_ : Unit {0}). I) (close out a)
  unfolding close
  close_down-Sound a active =
      if_cases (Ensures I (λ _. I)) (is_closed a.state) (λ h. absurd (cc (active, h)))
        (λ _. shut_down a)

  pub close-Keeps : Keeps I (close out)
  unfolding close
  close-Keeps a s =
      if_cases (Ensures I (λ _. I)) (is_closed a.state) (λ _. returned s) (λ _. shut_down a)

  pub abandon-Sound :
      (e : Error) (a : Adapter W N P)
      → is_closed a.state ≡ false
      → Ensures I (λ _. IsStarted out For) (abandon out e a)
  unfolding abandon continue recover
  abandon-Sound e a active =
      Ensures-continue (Ensures-recover (close_down-Sound a active) λ cleanup c s. threw s)
        λ _ c s. threw s

  pub drop_listener-Sound :
      (name : Text) (c : Callback) (o : Option (List Callback)) (a : Adapter W N P)
      → lookup name a.listeners ≡ o
      → I a
      → I (drop_listener name c o a)
  unfolding drop_listener
  drop_listener-Sound name c none a e s = s
  drop_listener-Sound name c (some cs) a e s = listeners-Sound a name (remove c cs) (ground arith) s

  pub unsubscribe-Sound :
      (name : Text) (c : Callback) (a : Adapter W N P) → I a → I (unsubscribe name c a)
  unfolding unsubscribe
  unsubscribe-Sound name c a s = drop_listener-Sound name c _ a refl s

  module _ (laws : Documented out For) where
    pub start-Keeps : (a : Adapter W N P) → I a → Ensures I (λ _. IsStarted out For) (start out a)
    unfolding start lookup
    start-Keeps a s =
        if_cases (Ensures I (λ _. IsStarted out For)) (is_new a.state)
          (λ unused.
            let (none_made, listed) = s.fresh (ground arith) in
            Ensures-recover
              (open_and_spin-IsStarted out For laws a.registrations (record a { aliases = [] })
                (record {
                  unclosed = ground arith;
                  same = refl;
                  listed = listed;
                  opened = tt;
                  made = λ k p there. absurd (cc (rw none_made at there));
                }))
              (λ e c active. abandon-Sound e c active))
          (λ _. threw s)

    pub subscribe-Keeps : (name : Text) (c : Callback) → Keeps I (subscribe name c)
    unfolding subscribe continue
    subscribe-Keeps name c a s = Ensures-lift (registration name ros_to_web a) _ s λ entry found.
        Ensures-lift (or_throw (lookup name a.listeners) type_error) _ s λ cs there. returned (
          listeners-Sound a name (add c cs)
            (ap is_some (or_throw-some (lookup name a.listeners) type_error cs there)) s)

    pub publish-Keeps : (name : Text) (native : N) → Keeps I (publish out name native)
    unfolding publish continue
    publish-Keeps name native a s = Ensures-lift (registration name web_to_ros a) _ s λ entry found.
        Ensures-lift (copy entry native) _ s λ normalized copied.
          Ensures-lift (or_throw (lookup (entity_key out entry) a.publishers) type_error) _ s
            λ p there. on_world-Keeps (out.native_publish p normalized) a s

    pub Act-Sound : (a b : Adapter W N P) → Act out a b → I a → I b
    Act-Sound a _ started s = Ensures-state (start-Keeps a s) (λ _ _ t. t.0)
    Act-Sound a _ (subscribed name c) s = Ensures-state (subscribe-Keeps name c a s) (λ _ _ t. t)
    Act-Sound a _ (unsubscribed name c) s = unsubscribe-Sound name c a s
    Act-Sound a _ (published name native) s =
        Ensures-state (publish-Keeps name native a s) (λ _ _ t. t)
    Act-Sound a _ closed_down s = Ensures-state (close-Keeps a s) (λ _ _ t. t)
    Act-Sound a _ (moved world) s = world-Sound a world s

    Acts-Sound : (a b : Adapter W N P) → Acts out a b → I a → I b
    Acts-Sound a _ still s = s
    Acts-Sound a b (also {b = c} acts act) s = Act-Sound c b act (Acts-Sound a c acts s)

    -- Whatever a callback does to the adapter.
    call-Keeps : (c : Callback) (native : N) → Keeps I (out.call c native)
    call-Keeps c native a s =
        let sound = Acts-Sound a (out.call c native a).1 (laws.calls c native a) s in
        Ensures-any (out.call c native a) sound (λ _ _. sound)

    pub notify_one-Keeps :
        (name : Text) (codec : Codec N) (wire : Value) (c : Callback)
        → Keeps I (notify_one out name codec wire c)
    unfolding notify_one
    notify_one-Keeps name codec wire c =
        let decoded = codec.decode (some wire) in
        Keeps-if (has name c) (attempt (lift decoded >>= out.call c) (report out)) (λ a. (ok tt, a))
          (Keeps-attempt (lift decoded >>= out.call c) (report out)
            (Keeps-then (lift decoded) (out.call c) (Keeps-lift decoded) (call-Keeps c))
            (λ e. on_world-Keeps (out.on_error e)))
          (λ a s. returned s)

    pub notify-Keeps :
        (name : Text) (codec : Codec N) (wire : Value) (cs : List Callback)
        → Keeps I (notify out name codec wire cs)
    unfolding notify
    notify-Keeps name codec wire [] a s = returned s
    notify-Keeps name codec wire (c ∷ cs) a s =
        Keeps-then (notify_one out name codec wire c) (λ _. notify out name codec wire cs)
          (notify_one-Keeps name codec wire c) (λ _. notify-Keeps name codec wire cs) a s

    pub deliver-Keeps : (name : Text) (native : N) → Keeps I (deliver out name native)
    unfolding deliver continue
    deliver-Keeps name native a s =
        Ensures-lift (or_throw (lookup name a.registrations) type_error) _ s λ entry found.
          Ensures-lift (entry.codec.encode native) _ s λ wire encoded.
            Ensures-lift (or_throw (lookup name a.listeners) type_error) _ s
              λ cs there. notify-Keeps name entry.codec wire cs a s

    pub receive-Keeps : (name : Text) (native : N) → Keeps I (receive out name native)
    unfolding receive
    receive-Keeps name native =
        Keeps-if (λ a. is_running a.state) (attempt (deliver out name native) (report out))
          (λ a. (ok tt, a))
          (Keeps-attempt (deliver out name native) (report out) (deliver-Keeps name native)
            (λ e. on_world-Keeps (out.on_error e)))
          (λ a s. returned s)

    pub receive_all-Keeps :
        (names : List Text) (native : N) → Keeps I (receive_all out names native)
    unfolding receive_all
    receive_all-Keeps [] native a s = returned s
    receive_all-Keeps (name ∷ more) native a s =
        Keeps-then (receive out name native) (λ _. receive_all out more native)
          (receive-Keeps name native) (λ _. receive_all-Keeps more native) a s

    pub sample_for-Keeps : (o : Option (List Text)) (native : N) → Keeps I (sample_for out o native)
    unfolding sample_for
    sample_for-Keeps none native a s = returned s
    sample_for-Keeps (some names) native a s = receive_all-Keeps names native a s

    pub native_sample-Keeps : (key : Text) (native : N) → Keeps I (native_sample out key native)
    unfolding native_sample
    native_sample-Keeps key native a s = sample_for-Keeps (lookup key a.aliases) native a s
