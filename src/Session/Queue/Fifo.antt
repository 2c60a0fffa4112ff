-- ===== src/Session/Queue/Fifo.antt =====
-- delivery-queue.ts: a reliable stream is a first-in first-out queue that never loses a message in
-- the middle.
use package.ros_webrtc_bridge.Prelude.{
  ℕ, ◌≡◌, ◌≢◌, refl, sym, ap, ◌∙◌, true, false, some, List, [], ◌∷◌, ◌++◌, Bool-cases, if_neg, All,
  Text, inl, inr, ◌⊎◌, arith, text_discrete,
}
use mathlib.Core.List.{append_assoc, append-nil}
use package.ros_webrtc_bridge.Prelude.Dict.{
  lookup, lookup-put_ne, lookup-delete_ne, lookup-put_self,
}
use package.ros_webrtc_bridge.Runtime.Outcome.{Outcome, ok, throw}
use package.ros_webrtc_bridge.Session.Queue.{
  Bytes, reliable, Stream, DeliveryQueue, new_stream, register, release, overflow, store,
  enqueue_to, enqueue, shift, dequeue, close_stream,
}
use package.ros_webrtc_bridge.Session.Queue.Accounting.{new_stream-eq-ok}
use package.ros_webrtc_bridge.Session.Queue.History.{
  Call, registers, enqueues, dequeues, closes, clears, step, run, pending, is_running, is_reliable,
  accepted_by, delivered_by, accepted, delivered, Spares, messages_of,
}

-- A call on one stream leaves the others as they are.
module _ (id j : Text) (q : DeliveryQueue) (other : j ≢ id) where
  lookup-register_ne :
      (policy : Text) (max : ℕ)
      → lookup id (register j policy max q).1.streams ≡ lookup id q.streams
  unfolding register
  lookup-register_ne policy max = go (new_stream j policy max q) refl
    where
      go :
          (r : Outcome Stream)
          → new_stream j policy max q ≡ r
          → lookup id (register j policy max q).1.streams ≡ lookup id q.streams
      go (throw e) h = rw (h, register)
      go (ok s) h = rw (h, register) (lookup-put_ne id j s q.streams other)

  lookup-enqueue_ne : (m : Bytes) → lookup id (enqueue j m q).1.streams ≡ lookup id q.streams
  unfolding enqueue enqueue_to store overflow release
  lookup-enqueue_ne m = grind (arith, lookup-put_ne)

  lookup-dequeue_ne : lookup id (dequeue j q).1.streams ≡ lookup id q.streams
  unfolding dequeue shift
  lookup-dequeue_ne = grind (arith, lookup-put_ne)

  lookup-close_stream_ne : lookup id (close_stream j q).1.streams ≡ lookup id q.streams
  unfolding close_stream release
  lookup-close_stream_ne = grind (arith, lookup-put_ne, lookup-delete_ne)

lookup-register_self :
    (id policy : Text) (max : ℕ) (q : DeliveryQueue) (s : Stream)
    → lookup id q.streams ≡ some s
    → (register id policy max q).1 ≡ q
unfolding register
lookup-register_self id policy max q s found = go (new_stream id policy max q) refl
  where
    go : (r : Outcome Stream) → new_stream id policy max q ≡ r → (register id policy max q).1 ≡ q
    go (throw e) h = rw (h, register)
    go (ok t) h = absurd (cc (new_stream-eq-ok id policy max q t h).0)

-- What one call does to a reliable stream that it does not end: while the stream runs, the messages
-- held and the one accepted are the one delivered and the messages held then.
record Keeps (id : Text) (c : Call) (q q' : DeliveryQueue) : Type 0 where
  kind : is_reliable id q' ≡ true
  before : is_running id q' ≡ true → is_running id q ≡ true
  order :
      is_running id q' ≡ true
      → pending id q ++ accepted_by id c q ≡ delivered_by id c q ++ pending id q'
  silent : is_running id q' ≡ false → (accepted_by id c q ≡ []) × (delivered_by id c q ≡ [])

Keeps-same :
    (id : Text) (c : Call) (q q' : DeliveryQueue)
    → is_reliable id q ≡ true
    → lookup id q'.streams ≡ lookup id q.streams
    → accepted_by id c q ≡ []
    → delivered_by id c q ≡ []
    → Keeps id c q q'
unfolding is_reliable is_running pending
Keeps-same id c q q' k same a d = record {
  kind = rw same k;
  before = λ h. rw same at h;
  order = λ _. rw (a, d, same) (append-nil (messages_of (lookup id q.streams)));
  silent = λ _. (a, d);
}

module _ (id : Text) (q : DeliveryQueue) (s : Stream) (found : lookup id q.streams ≡ some s)
    (kind : s.policy ≡ reliable) where
  enqueue-Keeps : (m : Bytes) → Keeps id (enqueues id m) q (enqueue id m q).1
  unfolding enqueue enqueue_to store overflow release is_reliable is_running pending
  enqueue-Keeps m = record {
    kind = grind (arith, lookup-put_self);
    before = grind (arith, lookup-put_self);
    order = grind (arith, lookup-put_self, append-nil);
    silent = grind (arith, lookup-put_self);
  }

  dequeue-Keeps : Keeps id (dequeues id) q (dequeue id q).1
  unfolding dequeue shift is_reliable is_running pending
  dequeue-Keeps = record {
    kind = grind (arith, lookup-put_self);
    before = grind (arith, lookup-put_self);
    order = grind (arith, lookup-put_self, append-nil);
    silent = grind (arith, lookup-put_self);
  }

step-Keeps :
    (id : Text) (c : Call) (q : DeliveryQueue) (s : Stream)
    → lookup id q.streams ≡ some s
    → s.policy ≡ reliable
    → Spares id c
    → Keeps id c q (step c q)
unfolding step is_reliable
step-Keeps id (registers j policy max) q s found kind _ = elim (text_discrete j id) [
  | yes p ↦
      Keeps-same id (registers j policy max) q _ (rw (found, kind))
        (rw p (ap (λ r. lookup id r.streams) (lookup-register_self id policy max q s found))) refl
        refl
  | no p ↦ Keeps-same id _ q _ (rw (found, kind)) (lookup-register_ne id j q p policy max) refl refl
]
step-Keeps id (enqueues j m) q s found kind _ = elim (text_discrete j id) [
  | yes p ↦ rw p (enqueue-Keeps id q s found kind m)
  | no p ↦
      Keeps-same id _ q _ (rw (found, kind)) (lookup-enqueue_ne id j q p m)
        (rw (if_neg (text_discrete j id) p)) refl
]
step-Keeps id (dequeues j) q s found kind _ = elim (text_discrete j id) [
  | yes p ↦ rw p (dequeue-Keeps id q s found kind)
  | no p ↦
      Keeps-same id _ q _ (rw (found, kind)) (lookup-dequeue_ne id j q p) refl
        (rw (if_neg (text_discrete j id) p))
]
step-Keeps id (closes j) q s found kind p =
    Keeps-same id _ q _ (rw (found, kind)) (lookup-close_stream_ne id j q p) refl refl
step-Keeps id clears q s found kind p = absurd p

reliable_found :
    (id : Text) (q : DeliveryQueue)
    → is_reliable id q ≡ true
    → (s : Stream) × (lookup id q.streams ≡ some s) × (s.policy ≡ reliable)
unfolding is_reliable
reliable_found id q h = ground arith

-- A stream that has stopped accepts and delivers nothing more.
stopped_silent :
    (id : Text) (cs : List Call) (q : DeliveryQueue)
    → is_reliable id q ≡ true
    → is_running id q ≡ false
    → All (Spares id) cs
    → (accepted id cs q ≡ []) × (delivered id cs q ≡ []) × (is_running id (run cs q) ≡ false)
unfolding accepted delivered run
stopped_silent id [] q k h sp = (refl, refl, h)
stopped_silent id (c ∷ cs) q k h sp =
    let (s, found, kind) = reliable_found id q k in
    let kept = step-Keeps id c q s found kind sp.0 in
    let off : is_running id (step c q) ≡ false = ground (arith, kept.before) in
    let rest = stopped_silent id cs (step c q) kept.kind off sp.1 in
    let now = kept.silent off in (rw (now.0, rest.0), rw (now.1, rest.1), rest.2)

-- For a reliable stream, over any history of calls that neither closes it nor clears the queue:
-- what it held and then accepted is, in order, what it delivered followed by a rest, and the rest
-- is exactly what it still holds unless the stream has stopped. So it delivers a prefix of what it
-- accepted, in order, with no gap and no repetition.
pub delivered-prefix :
    (id : Text) (cs : List Call) (q : DeliveryQueue)
    → is_reliable id q ≡ true
    → All (Spares id) cs
    → (rest : List Bytes) × (pending id q ++ accepted id cs q ≡ delivered id cs q ++ rest)
      × ((is_running id (run cs q) ≡ false) ⊎ (rest ≡ pending id (run cs q)))
unfolding accepted delivered run
delivered-prefix id [] q k sp = (pending id q, append-nil (pending id q), inr refl)
delivered-prefix id (c ∷ cs) q k sp =
    let (s, found, kind) = reliable_found id q k in
    let kept = step-Keeps id c q s found kind sp.0 in
    elim (Bool-cases (is_running id (step c q))) [
      | inl on ↦
          let (rest, split, held) = delivered-prefix id cs (step c q) kept.kind sp.1 in
          (
            rest,
            sym (append_assoc (pending id q) (accepted_by id c q) (accepted id cs (step c q)))
                ∙ ap (λ t. t ++ accepted id cs (step c q)) (kept.order on)
                ∙ append_assoc (delivered_by id c q) (pending id (step c q))
                    (accepted id cs (step c q))
                ∙ ap (◌++◌ (delivered_by id c q)) split
                ∙ sym (append_assoc (delivered_by id c q) (delivered id cs (step c q)) rest),
            held,
          )
      | inr off ↦
          let now = kept.silent off in
          let (none_in, none_out, still) = stopped_silent id cs (step c q) kept.kind off sp.1 in
          (
            pending id q,
            rw (now.0, now.1, none_in, none_out) (append-nil (pending id q)),
            inl still,
          )
    ]
