-- ===== src/Router/SessionRouter/Termination.antt =====
-- router/index.ts: `flush` and the error reply, which call each other, end within the fuel given. A
-- notification of the media plane that calls `flush` from within is a call of its own, not a round here.
use package.ros_webrtc_bridge.Prelude.{
  ℕ, zero, suc, ◌+◌, ◌≤◌, ◌<◌, ◌≡◌, refl, sym, ap, ◌∙◌, Bool, true, false, not, Option, none, some,
  List, [], ◌∷◌, is_some, if◌then◌else◌, length, Text, arith,
}
use mathlib.Core.Path.{subst}
use package.ros_webrtc_bridge.Prelude.Dict.{lookup, delete, length-delete-lt}
use package.ros_webrtc_bridge.Runtime.Outcome.{
  Outcome, ok, throw, or_throw, unknown_stream, or_throw-some,
}
use package.ros_webrtc_bridge.Runtime.Exec.{
  Exec, continue-agree, ensure, pure, lift, gets, continue, recover, Keeps, Keeps-then, Keeps-lift,
  Keeps-gets, Keeps-Bool, Keeps-Option, Keeps-pure, Ensures, Ensures-any, Ensures-lift, Ensures-map,
  returned,
}
use package.ros_webrtc_bridge.Session.Queue.{peek, enqueue, dequeue, close_stream}
use package.ros_webrtc_bridge.Router.Protocol.{Wire}
use package.ros_webrtc_bridge.Router.SessionRouter.{
  Channel, control, data_channel, RouterBinding, Outside, VideoPort, SessionRouter, Subscription,
  subscribing, control_stream, on_world, on_queue, entry_of, encode_wire,
}
use package.ros_webrtc_bridge.Router.SessionRouter.Sending.{
  no_fuel, error_wire, find_subscription, drain_on, drain, respond, remove_subscription, close,
  error_with, discard, flush_each, flush_body, flush_on, flush,
}

module _ {W N : Type 0} (out : Outside W N) where
  -- `f` and `g` agree on every router with fewer than `n` subscriptions.
  abbrev Agree :
      ℕ → Exec (SessionRouter W N) (Unit {0}) → Exec (SessionRouter W N) (Unit {0}) → Type 0
  Agree n f g = (r : SessionRouter W N) → length r.subscriptions < n → f r ≡ g r

  -- The subscriptions are those of before.
  abbrev Fixed : List (Text × Subscription N) → SessionRouter W N → Type 0
  Fixed subscriptions q = q.subscriptions ≡ subscriptions

  Keeps-Fixed :
      {A : Type 0} {subscriptions : List (Text × Subscription N)} (m : Exec (SessionRouter W N) A)
      → ((r : SessionRouter W N) → (m r).1.subscriptions ≡ r.subscriptions)
      → Keeps (Fixed subscriptions) m
  Keeps-Fixed m same r h = Ensures-any (m r) (same r ∙ h) (λ _ _. same r ∙ h)

  drain_on-Fixed :
      {subscriptions : List (Text × Subscription N)} (fuel : ℕ) (id : Text) (channel : Channel)
      → Keeps (Fixed subscriptions) (drain_on out no_fuel fuel id channel)
  unfolding drain_on
  drain_on-Fixed zero id channel = Keeps-lift _
  drain_on-Fixed (suc fuel) id channel =
      Keeps-then (gets (λ r. peek id r.queue)) _ (Keeps-gets _) λ next.
        Keeps-then (lift next) _ (Keeps-lift next) λ head.
          Keeps-Option head _ _ (Keeps-pure true) λ message.
            Keeps-then (on_world (out.send channel message)) _ (Keeps-Fixed _ (λ _. refl)) λ sent.
              Keeps-Bool sent _ _
                (Keeps-then (on_queue (dequeue id)) _ (Keeps-Fixed _ (λ _. refl))
                  λ _. drain_on-Fixed fuel id channel)
                (Keeps-pure false)

  drain-Fixed :
      {subscriptions : List (Text × Subscription N)} (id : Text) (channel : Channel)
      → Keeps (Fixed subscriptions) (drain out id channel)
  unfolding drain
  drain-Fixed id channel r h = drain_on-Fixed _ id channel r h

  respond-Fixed :
      {subscriptions : List (Text × Subscription N)} (wire : Wire)
      → Keeps (Fixed subscriptions) (respond out wire)
  unfolding respond
  respond-Fixed wire = Keeps-then (gets (λ r. r.closed)) _ (Keeps-gets _) λ closed.
      Keeps-then (ensure (not closed) _) _ (Keeps-lift _) λ _.
        Keeps-then (gets (λ r. r.max_bytes)) _ (Keeps-gets _) λ max_bytes.
          Keeps-then (lift (encode_wire out wire max_bytes)) _ (Keeps-lift _) λ bytes.
            Keeps-then (on_queue (enqueue control_stream bytes)) _ (Keeps-Fixed _ (λ _. refl))
              λ _. Keeps-pure tt

  -- A subscription that is removed is one less.
  remove_subscription-Fewer :
      (id : Text) (r : SessionRouter W N)
      → Ensures
          (λ _. Unit {0})
          (λ _ q. length q.subscriptions < length r.subscriptions)
          (remove_subscription out id r)
  unfolding remove_subscription find_subscription
  remove_subscription-Fewer id r =
      Ensures-lift (or_throw (lookup id r.subscriptions) unknown_stream) _ tt λ x found.
        let fewer : length (delete id r.subscriptions) < length r.subscriptions =
          length-delete-lt id x r.subscriptions (or_throw-some _ unknown_stream x found) in
        Ensures-map
          (Keeps-then {I = λ q. length q.subscriptions < length r.subscriptions}
            (on_queue (close_stream id)) _ (λ q less. Ensures-any _ less (λ _ _. less))
            (λ _ q less. Ensures-any _ less (λ _ _. less))
            (record r { subscriptions = delete id r.subscriptions }) fewer)
          (λ _ _. tt) (λ _ _ less. less)

  module _ (f g : Exec (SessionRouter W N) (Unit {0})) (n : ℕ) (same : Agree n f g) where
    error_with-agree :
        (id : Option Text) (r : SessionRouter W N)
        → length r.subscriptions < n
        → error_with out f id r ≡ error_with out g id r
    unfolding error_with
    error_with-agree id r h =
        ap (λ a. if r.closed then (ok tt, r) else recover a (λ _. close out))
          (continue-agree (λ _. f) (λ _. g)
            (respond-Fixed {subscriptions = r.subscriptions} (error_wire id) r refl)
            (λ _ q e. same q (subst (λ s. length s < n) (sym e) h)))

    discard-agree :
        (id : Text) (r : SessionRouter W N)
        → is_some (lookup id r.subscriptions) ≡ true
        → length r.subscriptions < suc n
        → discard out f id r ≡ discard out g id r
    unfolding discard continue
    discard-agree id r there h = go (is_some (lookup id r.subscriptions)) there
      where
        go :
            (b : Bool)
            → b ≡ true
            → continue
                ((elim b as (λ _. Exec (SessionRouter W N) (Unit {0})) [
                  | true ↦ remove_subscription out id
                  | false ↦ pure tt
                ])
                  r)
                (λ _. error_with out f none)
              ≡ continue
                  ((elim b as (λ _. Exec (SessionRouter W N) (Unit {0})) [
                    | true ↦ remove_subscription out id
                    | false ↦ pure tt
                  ])
                    r)
                  (λ _. error_with out g none)
        go true e =
            continue-agree (λ _. error_with out f none) (λ _. error_with out g none)
              (remove_subscription-Fewer id r)
              (λ _ q fewer. error_with-agree none q (omega (arith, fewer, h)))
        go false e = absurd (cc (e))

    -- The listed subscriptions are those of the router.
    flush_each-agree :
        (subscriptions : List (Text × Subscription N)) (r : SessionRouter W N)
        → ((k : Text)
            → is_some (lookup k subscriptions) ≡ true
            → is_some (lookup k r.subscriptions) ≡ true)
        → length r.subscriptions < suc n
        → flush_each out f subscriptions r ≡ flush_each out g subscriptions r
    unfolding flush_each continue lookup
    flush_each-agree [] r within h = refl
    flush_each-agree ((id, x) ∷ rest) r within h =
        listed (entry_of out x.entry.binding.public_name subscribing r) (flush_each-agree rest)
      where
        next_one : Exec (SessionRouter W N) (Unit {0}) → Bool → Exec (SessionRouter W N) (Unit {0})
        next_one loop empty = elim empty [ true ↦ flush_each out loop rest | false ↦ pure tt ]

        Rest : Type 0
        Rest =
            (r : SessionRouter W N)
            → ((k : Text)
                → is_some (lookup k rest) ≡ true
                → is_some (lookup k r.subscriptions) ≡ true)
            → length r.subscriptions < suc n
            → flush_each out f rest r ≡ flush_each out g rest r

        next_same :
            Rest
            → (empty : Bool) (q : SessionRouter W N) → q.subscriptions ≡ r.subscriptions
            → next_one f empty q ≡ next_one g empty q
        next_same rest_agrees true q e =
            rest_agrees q
              (λ k there.
                subst (λ s. is_some (lookup k s) ≡ true) (sym e) (within k (ground arith)))
              (subst (λ s. length s < suc n) (sym e) h)
        next_same rest_agrees false q e = refl

        listed :
            (may : Outcome (RouterBinding N))
            → Rest
            → (elim may as (λ _. Exec (SessionRouter W N) (Unit {0})) [
              | throw _ ↦ discard out f id
              | ok entry ↦ λ q.
                  continue (drain out id (data_channel x.entry.binding.delivery) q) (next_one f)
            ])
                r
              ≡ (elim may as (λ _. Exec (SessionRouter W N) (Unit {0})) [
                | throw _ ↦ discard out g id
                | ok entry ↦ λ q.
                    continue (drain out id (data_channel x.entry.binding.delivery) q) (next_one g)
              ])
                  r
        listed (throw e) rest_agrees = discard-agree id r (within id (ground arith)) h
        listed (ok entry) rest_agrees =
            continue-agree (next_one f) (next_one g)
              (drain-Fixed id (data_channel x.entry.binding.delivery) r refl)
              (next_same rest_agrees)

    flush_body-agree :
        (r : SessionRouter W N)
        → length r.subscriptions < suc n
        → flush_body out f r ≡ flush_body out g r
    unfolding flush_body continue
    flush_body-agree r h =
        ap (λ a. if r.closed then (ok tt, r) else a)
          (continue-agree {E = Fixed r.subscriptions} (λ _ q. controlled f q)
            (λ _ q. controlled g q) (revalidated out.video)
            (λ _ q e.
              continue-agree (swept f) (swept g)
                (drain-Fixed {subscriptions = r.subscriptions} control_stream control q e)
                swept_same))
      where
        swept : Exec (SessionRouter W N) (Unit {0}) → Bool → Exec (SessionRouter W N) (Unit {0})
        swept loop empty q =
            (elim empty as (λ _. Exec (SessionRouter W N) (Unit {0})) [
              | true ↦ flush_each out loop q.subscriptions
              | false ↦ pure tt
            ])
              q

        controlled : Exec (SessionRouter W N) (Unit {0}) → Exec (SessionRouter W N) (Unit {0})
        controlled loop q = continue (drain out control_stream control q) (swept loop)

        swept_same :
            (empty : Bool) (q : SessionRouter W N)
            → q.subscriptions ≡ r.subscriptions
            → swept f empty q ≡ swept g empty q
        swept_same true q e =
            flush_each-agree q.subscriptions q (λ _ there. there)
              (subst (λ s. length s < suc n) (sym e) h)
        swept_same false q e = refl

        revalidated :
            (o : Option (VideoPort W))
            → Ensures
                (Fixed r.subscriptions)
                (λ _. Fixed r.subscriptions)
                ((elim o as (λ _. Exec (SessionRouter W N) (Unit {0})) [
                  | none ↦ pure tt
                  | some port ↦ on_world port.revalidate
                ])
                  r)
        revalidated none = returned refl
        revalidated (some port) = Ensures-any _ refl (λ _ _. refl)

  flush_on-Agree :
      (last last' : Exec (SessionRouter W N) (Unit {0})) (n fuel fuel' : ℕ)
      → n ≤ fuel
      → n ≤ fuel'
      → Agree n (flush_on out last fuel) (flush_on out last' fuel')
  unfolding flush_on
  flush_on-Agree last last' zero fuel fuel' h h' r less = absurd (omega (arith, less))
  flush_on-Agree last last' (suc n) zero fuel' h h' r less = absurd (omega (arith, h))
  flush_on-Agree last last' (suc n) (suc fuel) zero h h' r less = absurd (omega (arith, h'))
  flush_on-Agree last last' (suc n) (suc fuel) (suc fuel') h h' r less =
      flush_body-agree (flush_on out last fuel) (flush_on out last' fuel') n
        (flush_on-Agree last last' n fuel fuel' (omega (arith, h)) (omega (arith, h'))) r less

  -- `flush` gives what its rounds give with any more fuel than there are subscriptions, whatever is done
  -- without fuel: if the outside's calls do not come back to the router, the fuel never runs out.
  pub flush_on-settles :
      (last : Exec (SessionRouter W N) (Unit {0})) (fuel : ℕ) (r : SessionRouter W N)
      → length r.subscriptions < fuel
      → flush_on out last fuel r ≡ flush out r
  unfolding flush
  flush_on-settles last fuel r less =
      flush_on-Agree last no_fuel (suc (length r.subscriptions)) fuel (length r.subscriptions + 1)
        (omega (arith, less)) (omega arith) r (omega arith)
