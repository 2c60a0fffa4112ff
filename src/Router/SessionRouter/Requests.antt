-- ===== src/Router/SessionRouter/Requests.antt =====
-- router/index.ts: `subscribe` keeps the router's invariant.
use package.ros_webrtc_bridge.Prelude.{
  ℕ, ◌+◌, ◌<◌, ◌≡◌, ◌≢◌, sym, ap, ◌∙◌, Bool, true, false, ltb, some, List, ◌∷◌, is_some, length,
  Text, text_discrete, inl, inr, arith, ◌++◌,
}
use mathlib.Core.Path.{subst}
use package.ros_webrtc_bridge.Prelude.Dict.{
  lookup, put, lookup-put_self, lookup-put_ne, length-put-le,
}
use package.ros_webrtc_bridge.Runtime.Outcome.{Outcome, ok, throw, require}
use package.ros_webrtc_bridge.Runtime.Exec.{
  continue, recover, ◌>>◌, lift, modify, Ensures, returned, threw, Ensures-any, Ensures-continue,
  Ensures-lift, Ensures-step,
}
use package.ros_webrtc_bridge.Runtime.Decimal.{print}
use package.ros_webrtc_bridge.Session.Queue.{DeliveryQueue, register, close_stream}
use package.ros_webrtc_bridge.Session.Queue.Accounting.{IsValid, register-IsValid}
use package.ros_webrtc_bridge.Session.Queue.Traffic.{close_stream-IsValid}
use package.ros_webrtc_bridge.Session.Queue.Names.{
  is_stream, close_stream-streams, register-streams,
}
use package.ros_webrtc_bridge.Router.Protocol.{Wire, fields, text_field}
use package.ros_webrtc_bridge.Router.RequestCache.{RequestCache}
use package.ros_webrtc_bridge.Router.SessionRouter.{
  Operation, subscribing, RouterBinding, Outside, Subscription, Publisher, SessionRouter,
  control_stream, on_queue, new_id, allowed, entry_of,
}
use package.ros_webrtc_bridge.Router.SessionRouter.Operations.{
  handles, policy_text, listen, subscribe, opening,
}
use package.ros_webrtc_bridge.Router.SessionRouter.Invariant.{
  Respects, Kept, Tables, Tables-queue, Sound,
}

-- A stream and its subscription come together, while there is room for a handle.
Tables-put :
    {N : Type 0} (s : List (Text × Subscription N)) (p : List (Text × Publisher N))
    (q q' : DeliveryQueue) (closed : Bool) (max : ℕ) (id : Text) (x : Subscription N)
    → length s + length p < max
    → ((k : Text) → k ≢ id → is_stream k q' ≡ is_stream k q)
    → is_stream id q' ≡ true
    → id ≢ control_stream
    → Tables s p q closed max
    → Tables (put id x s) p q' closed max
Tables-put s p q q' closed max id x room same there apart t = record {
  fits = omega (arith, length-put-le id x s);
  listed = λ k h. elim (text_discrete k id) [
    | yes i ↦
        inr (ap (λ j. is_some (lookup j (put id x s))) i ∙ ap is_some (lookup-put_self id x s))
    | no i ↦ elim (t.listed k (sym (same k i) ∙ h)) [
      | inl c ↦ inl c
      | inr old ↦ inr (ap is_some (lookup-put_ne k id x s (λ j. i (sym j))) ∙ old)
    ]
  ];
  served = λ k h. elim (text_discrete k id) [
    | yes i ↦ ap (λ j. is_stream j q') i ∙ there
    | no i ↦ same k i ∙ t.served k (sym (ap is_some (lookup-put_ne k id x s (λ j. i (sym j)))) ∙ h)
  ];
  apart = lookup-put_ne control_stream id x s apart ∙ t.apart;
  opened = λ h. same control_stream (λ i. apart (sym i)) ∙ t.opened h;
}

-- What `entry` finds: a binding under its own name, which the peer may use now.
pub record Found {W N : Type 0} (out : Outside W N) (name : Text) (o : Operation)
    (r : SessionRouter W N) (e : RouterBinding N) : Type 0 where
  pub listed : lookup name r.entries ≡ some e
  pub may : allowed out e o r.world ≡ true
  pub open_ : r.closed ≡ false

pub entry_of-Found :
    {W N : Type 0} (out : Outside W N) (name : Text) (o : Operation) (r : SessionRouter W N)
    (e : RouterBinding N)
    → entry_of out name o r ≡ ok e
    → Found out name o r e
unfolding entry_of
entry_of-Found out name o r e h = record {
  listed = ground arith;
  may = ground arith;
  open_ = ground arith;
}

-- What a new handle meets: its topic is allowed, the router is open, and there is room.
pub record Opening {W N : Type 0} (out : Outside W N) (o : Operation) (e : RouterBinding N)
    (r : SessionRouter W N) : Type 0 where
  pub may : allowed out e o r.world ≡ true
  pub open_ : r.closed ≡ false
  pub room : handles r < r.max_handles

abbrev pub OnCache : {N : Type 0} → (RequestCache → Type 0) → Kept N
OnCache C c s p = C c

module _ {W N : Type 0} {P : W → Type 0} (C : RequestCache → Type 0) (out : Outside W N)
    (laws : Respects out P) where
  abbrev pub J : SessionRouter W N → Type 0
  J = Sound P (OnCache C)

  pub opening-Ensures :
      (o : Operation) (wire : Wire) (r : SessionRouter W N)
      → J r
      → Ensures J (λ e q. J q × Opening out o e q) (opening out o wire r)
  unfolding opening continue
  opening-Ensures o wire r s = Ensures-lift (fields wire _) _ s λ _ _.
      Ensures-lift (text_field wire _) _ s λ topic _.
        Ensures-lift (entry_of out topic o r) _ s λ e found.
          Ensures-lift (require (ltb (handles r) r.max_handles) _) _ s λ _ room.
            let f = entry_of-Found out topic o r e found in
            returned (s, record { may = f.may; open_ = f.open_; room = ground arith })

  module _ (id : Text) (e : RouterBinding N) (q : DeliveryQueue) (r : SessionRouter W N)
      (s : J (record r { queue = q })) (valid : IsValid r.queue)
      (others : (k : Text) → k ≢ id → is_stream k r.queue ≡ is_stream k q)
      (there : is_stream id r.queue ≡ true) (fresh : is_stream id q ≡ false)
      (o : Opening out subscribing e r) where
    abbrev heard : W
    heard = (out.ros_subscribe e.binding.public_name id r.world).1

    heard-P : P heard
    heard-P = laws.ros_subscribe e id r.world o.may s.world

    listened :
        (x : Subscription N)
        → J (record r { world = heard; subscriptions = put id x r.subscriptions })
    listened x = record {
      world = heard-P;
      kept = s.kept;
      queue = valid;
      tables =
          Tables-put r.subscriptions r.publishers q r.queue r.closed r.max_handles id x o.room
            others there
            (λ i.
              let there_ : is_stream id q ≡ true =
                ap (λ j. is_stream j q) i ∙ s.tables.opened o.open_ in
              absurd (cc))
            s.tables;
      named = s.named;
    }

    given_back : J (record r { world = heard; queue = (close_stream id r.queue).1 })
    given_back = record {
      world = heard-P;
      kept = s.kept;
      queue = close_stream-IsValid r.queue id valid;
      tables = Tables-queue _ _ q _ _ _ same s.tables;
      named = s.named;
    }
      where
        same : (k : Text) → is_stream k (close_stream id r.queue).1 ≡ is_stream k q
        same k = elim (close_stream-streams id r.queue) [
          | inl (_, kept, gone, _) ↦ elim (text_discrete k id) [
            | yes i ↦
                subst (λ j. is_stream j (close_stream id r.queue).1 ≡ is_stream j q) (sym i)
                  (gone ∙ sym fresh)
            | no i ↦ kept k i ∙ others k i
          ]
          | inr (_, missing) ↦ absurd (cc)
        ]

    listen-Keeps : Ensures J (λ _. J) (listen out id e r)
    unfolding listen recover continue
    listen-Keeps = go (out.ros_subscribe e.binding.public_name id r.world).0
      where
        go :
            (answer : Outcome (Unit {0}))
            → Ensures J
                (λ _. J)
                (recover
                  (continue
                    (answer, record r { world = heard })
                    (λ _. modify (λ r. record r {
                      subscriptions =
                          put id
                            (record { entry = e; ready = false; seq = 0; next_at = 0 })
                            r.subscriptions;
                    })))
                  (λ e. on_queue (close_stream id) >> lift (throw e)))
        go (ok _) = returned (listened _)
        go (throw code) =
            Ensures-continue
              (Ensures-any
                (
                  (close_stream id r.queue).0,
                  record r { world = heard; queue = (close_stream id r.queue).1 },
                )
                given_back (λ _ _. given_back))
              (λ _ _ h. threw h)

  pub subscribe-Keeps :
      (e : RouterBinding N) (request_id : Text) (r : SessionRouter W N)
      → J r
      → Opening out subscribing e r
      → Ensures J (λ _. J) (subscribe out e request_id r)
  unfolding subscribe new_id continue
  subscribe-Keeps e request_id r s o =
      elim (register-streams id (policy_text e.binding.policy) e.binding.max_messages r.queue) [
        | inl (done, others, there, fresh) ↦ Ensures-step _ _ tt done (
            Ensures-continue
              (listen-Keeps id e r.queue after ticked (register-IsValid id _ _ r.queue s.queue)
                others there fresh (record { may = o.may; open_ = o.open_; room = o.room }))
              (λ _ _ h. returned h))
        | inr (code, refused) ↦ rw refused (
            threw (record {
              world = s.world;
              kept = s.kept;
              queue = s.queue;
              tables = s.tables;
              named = s.named;
            }))
      ]
    where
      id : Text
      id = r.session_id ++ b':' ∷ print (r.next_id + 1)

      after : SessionRouter W N
      after = record r {
        next_id = r.next_id + 1;
        queue = (register id (policy_text e.binding.policy) e.binding.max_messages r.queue).1;
      }

      ticked : J (record after { queue = r.queue })
      ticked = record {
        world = s.world;
        kept = s.kept;
        queue = s.queue;
        tables = s.tables;
        named = s.named;
      }
