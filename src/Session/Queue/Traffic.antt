-- ===== src/Session/Queue/Traffic.antt =====
-- delivery-queue.ts: what moves messages keeps the byte accounting and the limits.
use package.ros_webrtc_bridge.Prelude.{
  ap, not, if_cases, ◌==◌, ◌&&◌, ltb, leb, ◌||◌, Bool-cases, ℕ, ◌+◌, ◌-◌, ◌<◌, ◌≡◌, refl, Bool,
  true, false, some, List, [], ◌∷◌, ◌++◌, Option-cases, length, length-append, All, All-append,
  sum_of, sum_of-append, Text, inl, inr, arith,
}
use mathlib.Core.Path.{subst}
use package.ros_webrtc_bridge.Prelude.Dict.{
  lookup, delete, delete-Distinct, total-delete, length-delete-le, AllValues-delete,
  lookup-put_self,
}
use package.ros_webrtc_bridge.Runtime.Outcome.{Outcome, ok, slow_consumer, commit, require, ◌>>◌}
use package.ros_webrtc_bridge.Session.Queue.{
  Bytes, Policy, latest, reliable, Stream, QueueOptions, DeliveryQueue, stream_bytes, release,
  overflow, is_latest, store, enqueue_to, enqueue, shift, dequeue, close_stream, clear,
}
use package.ros_webrtc_bridge.Session.Queue.Accounting.{
  IsSized, IsBounded, IsValid, set_stream-IsValid, found-IsBounded, found-bytes,
}

release-IsValid :
    (q : DeliveryQueue) (id : Text) (s : Stream) (d : ℕ) (stop : Bool)
    → IsValid q
    → lookup id q.streams ≡ some s
    → (stop ≡ true → s.policy ≡ reliable)
    → IsValid (release id (record s { stopped = stop }) (record q { dropped = d }))
unfolding release
release-IsValid q id s d stop v found keep =
    let b = found-IsBounded q id s v found in
    set_stream-IsValid q id s (record s { stopped = stop; messages = [] })
      (q.bytes - stream_bytes s) d v found (omega (arith, found-bytes q id s v found))
      (omega (arith, v.budget))
      (record {
        within = omega arith;
        positive = b.positive;
        drained = λ _. refl;
        single = b.single;
        lossless = keep;
        sizes = tt;
      })

push-IsBounded :
    (o : QueueOptions) (s : Stream) (m : Bytes)
    → IsBounded o s
    → s.stopped ≡ false
    → IsSized o m
    → length s.messages < s.max_messages
    → IsBounded o (record s { messages = s.messages ++ m ∷ [] })
push-IsBounded o s m b running sized room = record {
  within = omega (arith, length-append s.messages (m ∷ []));
  positive = b.positive;
  drained = λ h. absurd (cc);
  single = b.single;
  lossless = b.lossless;
  sizes = All-append (IsSized o) s.messages (m ∷ []) b.sizes (sized, tt);
}

overflow-IsValid :
    (p : Policy) (q : DeliveryQueue) (id : Text) (s : Stream)
    → IsValid q
    → lookup id q.streams ≡ some s
    → s.policy ≡ p
    → IsValid (overflow p id s q).1
unfolding overflow
overflow-IsValid latest q id s v found e = record {
  distinct = v.distinct;
  counted = v.counted;
  budget = v.budget;
  fits = v.fits;
  each = v.each;
}
overflow-IsValid reliable q id s v found e = release-IsValid q id s q.dropped true v found (λ _. e)

store-IsValid :
    (q : DeliveryQueue) (id : Text) (s : Stream) (m : Bytes)
    → IsValid q
    → lookup id q.streams ≡ some s
    → s.stopped ≡ false
    → IsSized q.options m
    → IsValid (store id m s q).1
unfolding store
store-IsValid q id s m v found running sized =
    elim (Bool-cases
      (leb s.max_messages (length s.messages) || ltb (q.max_bytes - q.bytes) (length m))) [
        | inl full ↦ rw full (overflow-IsValid s.policy q id s v found refl)
        | inr room ↦ rw room (
            set_stream-IsValid q id s (record s { messages = s.messages ++ m ∷ [] })
              (q.bytes + length m) q.dropped v found
              (omega (arith, sum_of-append length s.messages (m ∷ []))) (ground (arith, v.budget))
              (push-IsBounded q.options s m (found-IsBounded q id s v found) running sized
                (ground arith)))
      ]

-- The checks of `enqueue_to` are passed in order; each throws before anything is written.
enqueue_to-IsValid :
    (q : DeliveryQueue) (id : Text) (s : Stream) (m : Bytes)
    → IsValid q
    → lookup id q.streams ≡ some s
    → IsValid (enqueue_to id m s q).1
unfolding enqueue_to
enqueue_to-IsValid q id s m v found =
    if_cases Left s.stopped (λ _. v)
      λ running.
        if_cases Left (length m == 0 || ltb q.max_message_bytes (length m)) (λ _. v)
          λ good.
            if_cases Left (is_latest s.policy && ltb 0 (length s.messages))
              (λ _.
                store-IsValid (release id s q') id (record s { messages = [] }) m
                  (release-IsValid q id s q'.dropped s.stopped v found (λ h. absurd (cc)))
                  (lookup-put_self id _ q.streams) running (ground arith))
              (λ _. store-IsValid q id s m v found running (ground arith))
  where
    Left : Outcome Bool × DeliveryQueue → Type 0
    Left r = IsValid r.1

    q' : DeliveryQueue
    q' = record q { dropped = q.dropped + length s.messages }

-- `enqueue` keeps the queue valid, whether it stores, drops or throws.
pub enqueue-IsValid :
    (q : DeliveryQueue) (id : Text) (m : Bytes) → IsValid q → IsValid (enqueue id m q).1
unfolding enqueue
enqueue-IsValid q id m v = elim (Option-cases (lookup id q.streams)) [
  | inl missing ↦ rw (missing, enqueue) v
  | inr (s, found) ↦ rw (found, enqueue) (enqueue_to-IsValid q id s m v found)
]

shift-IsValid :
    (q : DeliveryQueue) (id : Text) (s : Stream) (ms : List Bytes)
    → IsValid q
    → lookup id q.streams ≡ some s
    → s.messages ≡ ms
    → IsValid (shift id s q).1
unfolding shift
shift-IsValid q id s [] v found e = rw (e, shift) v
shift-IsValid q id s (m ∷ rest) v found e =
    let b = found-IsBounded q id s v found in
    let held : stream_bytes s ≡ length m + sum_of length rest = ap (sum_of length) e in
    rw (e, shift)
      (set_stream-IsValid q id s (record s { messages = rest }) (q.bytes - length m) q.dropped v
        found (omega (arith, found-bytes q id s v found, held)) (omega (arith, v.budget))
        (record {
          within = omega (arith, b.within, ap length e);
          positive = b.positive;
          drained = λ h. absurd (cc (b.drained h));
          single = b.single;
          lossless = b.lossless;
          sizes = (subst (All (IsSized q.options)) e b.sizes).1;
        }))

dequeue_found-IsValid :
    (q : DeliveryQueue) (id : Text) (s : Stream)
    → IsValid q
    → lookup id q.streams ≡ some s
    → IsValid (commit q (require (not s.stopped) slow_consumer >> ok (shift id s q))).1
dequeue_found-IsValid q id s v found = elim (Bool-cases s.stopped) [
  | inl stop ↦ simp stop v
  | inr running ↦ simp running (shift-IsValid q id s s.messages v found refl)
]

-- `dequeue` keeps the queue valid.
pub dequeue-IsValid : (q : DeliveryQueue) (id : Text) → IsValid q → IsValid (dequeue id q).1
unfolding dequeue
dequeue-IsValid q id v = elim (Option-cases (lookup id q.streams)) [
  | inl missing ↦ rw (missing, dequeue) v
  | inr (s, found) ↦ rw (found, dequeue) (dequeue_found-IsValid q id s v found)
]

delete-IsValid :
    (q : DeliveryQueue) (id : Text) (s : Stream)
    → IsValid q
    → lookup id q.streams ≡ some s
    → s.messages ≡ []
    → IsValid (record q { streams = delete id q.streams })
delete-IsValid q id s v found empty = record {
  distinct = delete-Distinct id q.streams v.distinct;
  counted = omega (
    arith,
    total-delete stream_bytes id s q.streams v.distinct found,
    v.counted,
    ap (sum_of length) empty,
  );
  budget = v.budget;
  fits = omega (arith, length-delete-le id q.streams, v.fits);
  each = AllValues-delete (IsBounded q.options) id q.streams v.each;
}

-- `closeStream` keeps the queue valid: it gives back exactly the bytes of the stream.
pub close_stream-IsValid :
    (q : DeliveryQueue) (id : Text) → IsValid q → IsValid (close_stream id q).1
unfolding close_stream
close_stream-IsValid q id v = elim (Option-cases (lookup id q.streams)) [
  | inl missing ↦ rw (missing, close_stream) v
  | inr (s, found) ↦
      let b = found-IsBounded q id s v found in
      rw (found, close_stream)
        (delete-IsValid (release id s q) id (record s { messages = [] })
          (release-IsValid q id s q.dropped s.stopped v found b.lossless)
          (lookup-put_self id _ q.streams) refl)
]

-- `clear` keeps the queue valid.
pub clear-IsValid : (q : DeliveryQueue) → IsValid q → IsValid (clear q)
unfolding clear
clear-IsValid q v = record {
  distinct = tt;
  counted = refl;
  budget = omega arith;
  fits = omega arith;
  each = tt;
}
