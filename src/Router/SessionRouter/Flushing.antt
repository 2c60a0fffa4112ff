-- ===== src/Router/SessionRouter/Flushing.antt =====
-- router/index.ts: sending and closing keep the router's invariant.
use package.ros_webrtc_bridge.Prelude.{
  ℕ, zero, suc, ◌≡◌, ◌≢◌, refl, sym, ap, ◌∙◌, Bool, true, false, not, Option, none, some, List, [],
  ◌∷◌, is_some, Text, text_discrete, inl, inr, arith,
}
use package.ros_webrtc_bridge.Prelude.Dict.{
  lookup, delete, lookup-delete_self, lookup-delete_ne, length-delete-le,
}
use package.ros_webrtc_bridge.Runtime.Outcome.{or_throw}
use package.ros_webrtc_bridge.Runtime.Exec.{
  Exec, continue, gets, lift, pure, ensure, Keeps, Keeps-then, Keeps-lift, Keeps-gets,
  Keeps-attempt, Keeps-pure, Keeps-Bool, Keeps-if, Keeps-Option, Keeps-Outcome, Ensures, returned,
  Ensures-any, Ensures-continue, Ensures-lift, Ensures-step,
}
use package.ros_webrtc_bridge.Session.Queue
use package.ros_webrtc_bridge.Session.Queue.{
  DeliveryQueue, Bytes, Stream, peek, enqueue, dequeue, close_stream,
}
use package.ros_webrtc_bridge.Session.Queue.Traffic.{close_stream-IsValid, clear-IsValid}
use package.ros_webrtc_bridge.Session.Queue.Names.{is_stream, close_stream-streams}
use package.ros_webrtc_bridge.Session.Guard.{revoke_session}
use package.ros_webrtc_bridge.Router.Protocol.{Wire}
use package.ros_webrtc_bridge.Router.SessionRouter.{
  Channel, VideoPort, Outside, Subscription, Publisher, SessionRouter, control_stream, control,
  data_channel, subscribing, entry_of, on_world, on_queue, encode_wire,
}
use package.ros_webrtc_bridge.Router.SessionRouter.Sending.{
  no_fuel, error_wire, find_subscription, let_go, drain_on, drain, respond, remove_subscription,
  video_call, unsubscribe_all, finish, close, error_with, discard, flush_each, flush_body, flush_on,
  flush, error,
}
use package.ros_webrtc_bridge.Router.SessionRouter.Invariant.{
  Respects, Tables, Kept, Removed, Cleared, Sound, world-Sound, Keeps-world, Keeps-enqueue,
  Keeps-dequeue,
}

-- A stream and its subscription go together.
pub Tables-delete :
    {N : Type 0} (s : List (Text × Subscription N)) (p : List (Text × Publisher N))
    (q q' : DeliveryQueue) (closed : Bool) (max : ℕ) (id : Text) (x : Subscription N)
    → lookup id s ≡ some x
    → ((k : Text) → k ≢ id → is_stream k q' ≡ is_stream k q)
    → is_stream id q' ≡ false
    → Tables s p q closed max
    → Tables (delete id s) p q' closed max
Tables-delete s p q q' closed max id x e same gone t = record {
  fits = omega (arith, length-delete-le id s, t.fits);
  listed = λ k h. elim (text_discrete k id) [
    | yes i ↦ absurd (cc (gone))
    | no i ↦ elim (t.listed k (sym (same k i) ∙ h)) [
      | inl c ↦ inl c
      | inr there ↦ inr (ap is_some (lookup-delete_ne k id s (λ j. i (sym j))) ∙ there)
    ]
  ];
  served = λ k h. elim (text_discrete k id) [
    | yes i ↦ absurd (cc (lookup-delete_self id s))
    | no i ↦ same k i ∙ t.served k (sym (ap is_some (lookup-delete_ne k id s (λ j. i (sym j)))) ∙ h)
  ];
  apart = lookup-delete_ne control_stream id s (λ i. absurd (cc (t.apart))) ∙ t.apart;
  opened = λ h. same control_stream (λ i. absurd (cc (t.apart))) ∙ t.opened h;
}

module _ {W N : Type 0} {P : W → Type 0} {K : Kept N} (out : Outside W N)
    (laws : Respects out P) where
  drain_on-Keeps :
      (fuel : ℕ) (id : Text) (channel : Channel)
      → Keeps (Sound P K) (drain_on out no_fuel fuel id channel)
  unfolding drain_on
  drain_on-Keeps zero id channel = Keeps-lift _
  drain_on-Keeps (suc fuel) id channel =
      Keeps-then (gets (λ r. peek id r.queue)) _ (Keeps-gets _) λ next.
        Keeps-then (lift next) _ (Keeps-lift next) λ head.
          Keeps-Option head _ _ (Keeps-pure true) λ message.
            Keeps-then (on_world (out.send channel message)) _
              (Keeps-world P K _ (laws.send channel message))
              λ sent.
                Keeps-Bool sent _ _
                  (Keeps-then (on_queue (dequeue id)) _ (Keeps-dequeue P K id)
                    λ _. drain_on-Keeps fuel id channel)
                  (Keeps-pure false)

  pub drain-Keeps : (id : Text) (channel : Channel) → Keeps (Sound P K) (drain out id channel)
  unfolding drain
  drain-Keeps id channel r s = drain_on-Keeps _ id channel r s

  pub respond-Keeps : (wire : Wire) → Keeps (Sound P K) (respond out wire)
  unfolding respond
  respond-Keeps wire = Keeps-then (gets (λ r. r.closed)) _ (Keeps-gets _) λ closed.
      Keeps-then (ensure (not closed) _) _ (Keeps-lift _) λ _.
        Keeps-then (gets (λ r. r.max_bytes)) _ (Keeps-gets _) λ max_bytes.
          Keeps-then (lift (encode_wire out wire max_bytes)) _ (Keeps-lift _) λ bytes.
            Keeps-then (on_queue (enqueue control_stream bytes)) _
              (Keeps-enqueue P K control_stream bytes) λ _ _ s. returned s

  pub remove_subscription-Keeps :
      Removed K → (id : Text) → Keeps (Sound P K) (remove_subscription out id)
  unfolding remove_subscription continue find_subscription
  remove_subscription-Keeps removed id r s =
      Ensures-lift (or_throw (lookup id r.subscriptions) _) _ s λ x found.
        elim (close_stream-streams id r.queue) [
          | inl (done, others, gone, _) ↦ Ensures-step _ _ tt done (
              Keeps-world P K (out.unsubscribe id) (laws.unsubscribe id)
                (record r {
                  subscriptions = delete id r.subscriptions;
                  queue = (close_stream id r.queue).1;
                })
                (record {
                  world = s.world;
                  kept = removed id _ _ _ s.kept;
                  queue = close_stream-IsValid r.queue id s.queue;
                  tables = Tables-delete _ _ _ _ _ _ id x (ground arith) others gone s.tables;
                  named = s.named;
                }))
          | inr (_, missing) ↦ absurd (ground (arith, s.tables.served id))
        ]

  pub video_call-Keeps :
      (m : VideoPort W → Exec W (Unit {0}))
      → ((port : VideoPort W) (w : W) → out.video ≡ some port → P w → P (m port w).1)
      → Keeps (Sound {N = N} P K) (video_call out m)
  video_call-Keeps m keeps = go out.video refl
    where
      go :
          (o : Option (VideoPort W))
          → out.video ≡ o
          → Keeps (Sound {N = N} P K) (elim o [ none ↦ pure tt | some port ↦ on_world (m port) ])
      go none e = Keeps-pure tt
      go (some port) e = Keeps-world P K (m port) (λ w. keeps port w e)

  module _ (cleared : Cleared K) where
    -- The router that is closing: its invariant, and that it is closed.
    abbrev Closing : SessionRouter W N → Type 0
    Closing r = Sound P K r × (r.closed ≡ true)

    unsubscribe_all-Closing :
        (subscriptions : List (Text × Subscription N)) (r : SessionRouter W N)
        → Closing r
        → Closing (unsubscribe_all out subscriptions r).1
    unfolding unsubscribe_all
    unsubscribe_all-Closing [] r c = c
    unsubscribe_all-Closing ((id, x) ∷ rest) r (s, shut) = unsubscribe_all-Closing rest _ (
      world-Sound P K r (out.unsubscribe id r.world).1 (laws.unsubscribe id r.world s.world) s,
      shut,
    )

    finish-Sound : (r : SessionRouter W N) → Closing r → Sound P K (finish out r).1
    unfolding finish let_go lookup Queue.clear
    finish-Sound r (s, shut) =
        let revoked : SessionRouter W N = record r {
          guard = revoke_session r.session_id r.guard;
        } in
        let start : Sound P K revoked = record {
          world = s.world;
          kept = s.kept;
          queue = s.queue;
          tables = s.tables;
          named = s.named;
        } in
        let (t, closed) = unsubscribe_all-Closing r.subscriptions revoked (start, shut) in
        record {
          world = laws.on_closed _ t.world;
          kept = cleared _ _ _ t.kept;
          queue = clear-IsValid _ t.queue;
          tables = record {
            fits = omega arith;
            listed = λ k h. absurd (cc);
            served = λ k h. absurd (cc);
            apart = refl;
            opened = λ h. absurd (cc);
          };
          named = t.named;
        }

    media_closed :
        (r : SessionRouter W N)
        → Closing r
        → Ensures (Sound P K) (λ _. Closing) (video_call out (λ port. port.close) r)
    media_closed r (s, shut) = go out.video refl
      where
        go :
            (o : Option (VideoPort W))
            → out.video ≡ o
            → Ensures
                (Sound P K)
                (λ _. Closing)
                ((elim o as (λ _. Exec (SessionRouter W N) (Unit {0})) [
                  | none ↦ pure tt
                  | some port ↦ on_world port.close
                ])
                  r)
        go none e = returned (s, shut)
        go (some port) e =
            let after =
              world-Sound P K r (port.close r.world).1 (laws.video_close port r.world e s.world)
                s in
            Ensures-any _ after (λ _ _. (after, shut))

    pub close-Keeps : Keeps (Sound P K) (close out)
    unfolding close
    close-Keeps =
        Keeps-if (λ r. r.closed) _ _ (Keeps-pure tt)
          λ r s.
            Ensures-continue (media_closed (record r { closed = true }) (shut r s, refl))
              λ _ q c. Ensures-any _ (finish-Sound q c) (λ _ _. finish-Sound q c)
      where
        shut : (r : SessionRouter W N) → Sound P K r → Sound P K (record r { closed = true })
        shut r s = record {
          world = s.world;
          kept = s.kept;
          queue = s.queue;
          tables = record {
            fits = s.tables.fits;
            listed = s.tables.listed;
            served = s.tables.served;
            apart = s.tables.apart;
            opened = λ h. absurd (cc);
          };
          named = s.named;
        }

    module _ (removed : Removed K) (flush : Exec (SessionRouter W N) (Unit {0}))
        (flush-Keeps : Keeps (Sound P K) flush) where
      pub error_with-Keeps : (id : Option Text) → Keeps (Sound P K) (error_with out flush id)
      unfolding error_with
      error_with-Keeps id =
          Keeps-if (λ r. r.closed) _ _ (Keeps-pure tt)
            (Keeps-attempt _ _
              (Keeps-then (respond out (error_wire id)) _ (respond-Keeps (error_wire id))
                λ _. flush-Keeps)
              (λ _. close-Keeps))

      discard-Keeps : (id : Text) → Keeps (Sound P K) (discard out flush id)
      unfolding discard
      discard-Keeps id =
          Keeps-then (gets (λ r. is_some (lookup id r.subscriptions))) _ (Keeps-gets _) λ there.
            Keeps-then (elim there [ true ↦ remove_subscription out id | false ↦ pure tt ]) _
              (Keeps-Bool there _ _ (remove_subscription-Keeps removed id) (Keeps-pure tt))
              λ _. error_with-Keeps none

      flush_each-Keeps :
          (subscriptions : List (Text × Subscription N))
          → Keeps (Sound P K) (flush_each out flush subscriptions)
      unfolding flush_each
      flush_each-Keeps [] = Keeps-pure tt
      flush_each-Keeps ((id, x) ∷ rest) =
          Keeps-then (gets (entry_of out x.entry.binding.public_name subscribing)) _ (Keeps-gets _)
            λ may.
              Keeps-Outcome may _ _
                (λ entry.
                  Keeps-then (drain out id (data_channel x.entry.binding.delivery)) _
                    (drain-Keeps id _)
                    λ empty. Keeps-Bool empty _ _ (flush_each-Keeps rest) (Keeps-pure tt))
                (λ _. discard-Keeps id)

      pub flush_body-Keeps : Keeps (Sound P K) (flush_body out flush)
      unfolding flush_body
      flush_body-Keeps =
          Keeps-if (λ r. r.closed) _ _ (Keeps-pure tt)
            (Keeps-then (video_call out (λ port. port.revalidate)) _
              (video_call-Keeps (λ port. port.revalidate) laws.video_revalidate)
              λ _.
                Keeps-then (drain out control_stream control) _ (drain-Keeps control_stream control)
                  λ empty.
                    Keeps-then (gets (λ r. r.subscriptions)) _ (Keeps-gets _) λ subscriptions.
                      Keeps-Bool empty _ _ (flush_each-Keeps subscriptions) (Keeps-pure tt))

    flush_on-Keeps : Removed K → (fuel : ℕ) → Keeps (Sound P K) (flush_on out no_fuel fuel)
    unfolding flush_on
    flush_on-Keeps removed zero = Keeps-lift _
    flush_on-Keeps removed (suc fuel) =
        flush_body-Keeps removed (flush_on out no_fuel fuel) (flush_on-Keeps removed fuel)

    pub flush-Keeps : Removed K → Keeps (Sound P K) (flush out)
    unfolding flush
    flush-Keeps removed r s = flush_on-Keeps removed _ r s

    pub error-Keeps : Removed K → (id : Option Text) → Keeps (Sound P K) (error out id)
    unfolding error
    error-Keeps removed id r s =
        error_with-Keeps removed (flush_on out no_fuel _) (flush_on-Keeps removed _) id r s
