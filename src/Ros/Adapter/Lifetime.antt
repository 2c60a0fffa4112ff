-- ===== src/Ros/Adapter/Lifetime.antt =====
-- ros/adapter.ts: every history of an adapter.
use mathlib.Core.Path.{subst}
use package.ros_webrtc_bridge.Prelude.{
  ◌≡◌, refl, is_some, Bool-cases, inl, inr, List, [], ◌∷◌, Text, text_discrete, arith,
}
use package.ros_webrtc_bridge.Prelude.Dict.{lookup, lookup-put}
use package.ros_webrtc_bridge.Runtime.Outcome.{ok}
use package.ros_webrtc_bridge.Runtime.Exec.{Ensures-state}
use package.ros_webrtc_bridge.Config.{RosQos}
use package.ros_webrtc_bridge.Ros.Adapter.{
  new, Registration, Adapter, Outside, register_all, construct, entered,
}
use package.ros_webrtc_bridge.Ros.Adapter.Receiving.{native_sample}
use package.ros_webrtc_bridge.Ros.Adapter.Invariant.{Act, Listed, Sound, Documented}
use package.ros_webrtc_bridge.Ros.Adapter.Keeping.{Act-Sound, native_sample-Keeps}

module _ {W N P : Type 0} (out : Outside W N P) (For : P → Text → Text → RosQos → Type 0) where
  -- A step is a call of the adapter by its users, or what happens outside, or a sample of a native
  -- subscription.
  pub data Step (a : Adapter W N P) : Adapter W N P → Type 0 where
    acted : {b : Adapter W N P} → Act out a b → Step a b
    sampled : (key : Text) (native : N) → Step a (native_sample out key native a).1

  pub data Reached (a : Adapter W N P) : Adapter W N P → Type 0 where
    here : Reached a a
    after : {b c : Adapter W N P} → Reached a b → Step b c → Reached a c

  module _ (laws : Documented out For) where
    Step-Sound : (a b : Adapter W N P) → Step a b → Sound out For a → Sound out For b
    Step-Sound a b (acted act) s = Act-Sound out For laws a b act s
    Step-Sound a _ (sampled key native) s =
        Ensures-state (native_sample-Keeps out For laws key native a s) (λ _ _ t. t)

    Reached-Sound : (a b : Adapter W N P) → Sound out For a → Reached a b → Sound out For b
    Reached-Sound a _ s here = s
    Reached-Sound a b s (after {b = c} reached step) =
        Step-Sound c b step (Reached-Sound a c s reached)

  abbrev Fresh : Adapter W N P → Type 0
  Fresh a = (a.state ≡ new) × (a.publishers ≡ []) × Listed out For a

  register_all-Fresh :
      (entries : List (Registration N)) (a b : Adapter W N P)
      → register_all entries a ≡ ok b
      → Fresh a
      → Fresh b
  unfolding register_all
  register_all-Fresh [] a b h fresh = let same : a ≡ b = ground arith in subst Fresh same fresh
  register_all-Fresh (e ∷ more) a b h (state, empty, listed) =
      let name = e.binding.public_name in
      let more_listed : Listed out For (entered e a) = λ n f there. elim (text_discrete name n) [
        | yes same ↦ ([], ground (arith, lookup-put n name [] a.listeners))
        | no other ↦
            let (cs, found) = listed n f (ground (arith, lookup-put n name e a.registrations)) in
            (cs, ground (arith, lookup-put n name [] a.listeners))
      ] in
      elim (Bool-cases (is_some (lookup name a.registrations))) [
        | inl twice ↦ absurd (ground arith)
        | inr once ↦
            register_all-Fresh more (entered e a) b (ground arith) (state, empty, more_listed)
      ]

  -- If the backend makes the publishers that it is asked for, the keys tell entities apart and the
  -- listeners change the adapter by calls of its methods alone, then an adapter that was
  -- constructed is sound after any calls and samples in any order, throws included: before the start it
  -- has no publisher; while it runs, each registration has its entity, a publisher made for its type,
  -- topic and QoS or a place among the aliases of its subscription, and each name its set of listeners;
  -- and when it is closed, also by a start that failed, neither publishers nor listeners are left.
  pub constructed-Sound :
      (laws : Documented out For) (registry : List (Registration N)) (world : W)
      (a b : Adapter W N P)
      → construct registry world ≡ ok a
      → Reached a b
      → Sound out For b
  unfolding construct lookup
  constructed-Sound laws registry world a b made reached =
      let (state, empty, listed) =
        register_all-Fresh registry _ a made (refl, refl, λ name e there. absurd (cc (there))) in
      Reached-Sound laws a b
        (record {
          fresh = λ _. (empty, listed);
          ready = λ e. absurd (cc (state, e));
          ended = λ e. absurd (cc (state, e));
        })
        reached
