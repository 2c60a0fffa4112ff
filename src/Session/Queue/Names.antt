-- ===== src/Session/Queue/Names.antt =====
-- delivery-queue.ts: which streams are registered after a call.
use package.ros_webrtc_bridge.Prelude.{
  ℕ, ◌≡◌, ◌≢◌, refl, Bool, true, false, ◌⊎◌, some, List, is_some, Text, Option-cases, inl, inr,
  arith,
}
use package.ros_webrtc_bridge.Prelude.Dict.{
  lookup, put, lookup-put, lookup-put_ne, lookup-put_self, lookup-delete_ne, lookup-delete_self,
}
use package.ros_webrtc_bridge.Runtime.Outcome.{Outcome, Error, ok, throw}
use package.ros_webrtc_bridge.Session.Queue.Accounting.{new_stream-eq-ok}
use package.ros_webrtc_bridge.Session.Queue.{
  Bytes, Stream, DeliveryQueue, release, overflow, store, enqueue_to, enqueue, shift, dequeue,
  close_stream, new_stream, register,
}

abbrev pub is_stream : Text → DeliveryQueue → Bool
is_stream k q = is_some (lookup k q.streams)

abbrev pub SameStreams : DeliveryQueue → DeliveryQueue → Type 0
SameStreams q q' = (k : Text) → is_stream k q' ≡ is_stream k q

is_stream-put :
    (k id : Text) (s s' : Stream) (m : List (Text × Stream))
    → lookup id m ≡ some s
    → is_some (lookup k (put id s' m)) ≡ is_some (lookup k m)
is_stream-put k id s s' m e = ground (arith, lookup-put k id s' m)

store-SameStreams :
    (id : Text) (m : Bytes) (s s' : Stream) (q : DeliveryQueue)
    → lookup id q.streams ≡ some s'
    → SameStreams q (store id m s q).1
unfolding store overflow release
store-SameStreams id m s s' q e k = grind (arith, is_stream-put)

pub enqueue-SameStreams :
    (id : Text) (m : Bytes) (q : DeliveryQueue) → SameStreams q (enqueue id m q).1
unfolding enqueue enqueue_to release
enqueue-SameStreams id m q k = elim (Option-cases (lookup id q.streams)) [
  | inl missing ↦ ground arith
  | inr (s, e) ↦ grind (arith, is_stream-put, store-SameStreams, lookup-put_self)
]

pub dequeue-SameStreams : (id : Text) (q : DeliveryQueue) → SameStreams q (dequeue id q).1
unfolding dequeue shift
dequeue-SameStreams id q k = elim (Option-cases (lookup id q.streams)) [
  | inl missing ↦ ground arith
  | inr (s, e) ↦ grind (arith, is_stream-put)
]

-- `closeStream` takes exactly its stream away, or throws and changes nothing.
pub close_stream-streams :
    (id : Text) (q : DeliveryQueue)
    → ((close_stream id q).0 ≡ ok tt)
        × ((k : Text) → k ≢ id → is_stream k (close_stream id q).1 ≡ is_stream k q)
        × (is_stream id (close_stream id q).1 ≡ false)
        × (is_stream id q ≡ true)
      ⊎ ((close_stream id q).1 ≡ q) × (is_stream id q ≡ false)
unfolding close_stream release
close_stream-streams id q = elim (Option-cases (lookup id q.streams)) [
  | inl missing ↦ inr (ground arith, ground arith)
  | inr (s, e) ↦ inl (
    ground arith,
    λ k other. grind (arith, is_stream-put, lookup-delete_ne),
    grind (arith, lookup-delete_self),
    ground arith,
  )
]

-- `register` adds exactly its stream, which was not there, or throws and changes nothing.
pub register-streams :
    (id policy : Text) (max : ℕ) (q : DeliveryQueue)
    → ((register id policy max q).0 ≡ ok tt)
        × ((k : Text) → k ≢ id → is_stream k (register id policy max q).1 ≡ is_stream k q)
        × (is_stream id (register id policy max q).1 ≡ true)
        × (is_stream id q ≡ false)
      ⊎ ((e : Error) × (register id policy max q ≡ (throw e, q)))
unfolding register
register-streams id policy max q = go (new_stream id policy max q) refl
  where
    go :
        (r : Outcome Stream)
        → new_stream id policy max q ≡ r
        → ((register id policy max q).0 ≡ ok tt)
            × ((k : Text) → k ≢ id → is_stream k (register id policy max q).1 ≡ is_stream k q)
            × (is_stream id (register id policy max q).1 ≡ true)
            × (is_stream id q ≡ false)
          ⊎ ((e : Error) × (register id policy max q ≡ (throw e, q)))
    go (throw e) h = inr (e, rw (h, register) (refl))
    go (ok s) h =
        let fresh = (new_stream-eq-ok id policy max q s h).0 in
        rw (h, register)
          (inl (
            refl,
            λ k other. ground (arith, lookup-put_ne k id s q.streams),
            ground (arith, lookup-put_self id s q.streams),
            ground (arith, fresh),
          ))
