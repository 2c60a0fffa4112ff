-- ===== src/Router/SessionRouter/Draining.antt =====
-- router/index.ts: the loop of `drain` ends within the fuel that it is given.
use package.ros_webrtc_bridge.Prelude.{
  ℕ, zero, suc, ◌+◌, ◌<◌, ◌≡◌, refl, ap, ◌∙◌, Bool, true, false, Option, none, some, List, Text,
  arith,
}
use package.ros_webrtc_bridge.Prelude.Dict.{lookup, lookup-put_self}
use package.ros_webrtc_bridge.Runtime.Outcome.{Outcome, ok, throw}
use package.ros_webrtc_bridge.Runtime.Exec.{
  Exec, continue-agree, pure, continue, ◌>>=◌, Ensures-any,
}
use package.ros_webrtc_bridge.Session.Queue.{DeliveryQueue, peek, dequeue, shift, release}
use package.ros_webrtc_bridge.Router.SessionRouter.{
  Channel, Outside, SessionRouter, on_world, on_queue,
}
use package.ros_webrtc_bridge.Router.SessionRouter.Sending.{no_fuel, held, drain_on, drain}

-- A message that is taken away leaves one less.
dequeue-held :
    (id : Text) (q : DeliveryQueue) (m : List ℕ)
    → peek id q ≡ ok (some m)
    → held (lookup id (dequeue id q).1.streams) < held (lookup id q.streams)
unfolding dequeue shift peek release
dequeue-held id q m h = grind (arith, lookup-put_self)

module _ {W N : Type 0} (out : Outside W N) where
  drain_on-agree :
      (last last' : Exec (SessionRouter W N) Bool) (fuel fuel' : ℕ) (id : Text) (channel : Channel)
      (r : SessionRouter W N)
      → held (lookup id r.queue.streams) < fuel
      → held (lookup id r.queue.streams) < fuel'
      → drain_on out last fuel id channel r ≡ drain_on out last' fuel' id channel r
  unfolding drain_on continue
  drain_on-agree last last' zero fuel' id channel r h h' = absurd (omega (arith, h))
  drain_on-agree last last' (suc fuel) zero id channel r h h' = absurd (omega (arith, h'))
  drain_on-agree last last' (suc fuel) (suc fuel') id channel r h h' =
      go (peek id r.queue) refl (drain_on-agree last last' fuel fuel' id channel)
    where
      Loop : Type 0
      Loop = Exec (SessionRouter W N) Bool

      shifted : Loop → Bool → Loop
      shifted loop sent = elim sent as (λ _. Exec (SessionRouter W N) Bool) [
        | false ↦ pure false
        | true ↦ on_queue (dequeue id) >>= λ _. loop
      ]

      body : Loop → Option (List ℕ) → Loop
      body loop head = elim head as (λ _. Exec (SessionRouter W N) Bool) [
        | none ↦ pure true
        | some message ↦ λ q. continue (on_world (out.send channel message) q) (shifted loop)
      ]

      Less : Type 0
      Less =
          (q : SessionRouter W N)
          → held (lookup id q.queue.streams) < fuel
          → held (lookup id q.queue.streams) < fuel'
          → drain_on out last fuel id channel q ≡ drain_on out last' fuel' id channel q

      sent_same :
          Less
          → (m : List ℕ) → peek id r.queue ≡ ok (some m)
          → (sent : Bool) (q : SessionRouter W N) → q.queue ≡ r.queue
          → shifted (drain_on out last fuel id channel) sent q
            ≡ shifted (drain_on out last' fuel' id channel) sent q
      sent_same less m e false q same = refl
      sent_same less m e true q same =
          let fewer = dequeue-held id q.queue m (ap (peek id) same ∙ e) in
          let held_same : held (lookup id q.queue.streams) ≡ held (lookup id r.queue.streams) =
            ap (λ v. held (lookup id v.streams)) same in
          continue-agree {E = λ _. Unit {0}}
            {Q = λ _ s. held (lookup id s.queue.streams) < held (lookup id q.queue.streams)} _ _
            (Ensures-any (on_queue (dequeue id) q) tt (λ _ _. fewer))
            (λ _ s fits.
              less s (omega (arith, fits, held_same, h)) (omega (arith, fits, held_same, h')))

      go :
          (a : Outcome (Option (List ℕ)))
          → peek id r.queue ≡ a
          → Less
          → continue (a, r) (body (drain_on out last fuel id channel))
            ≡ continue (a, r) (body (drain_on out last' fuel' id channel))
      go (throw e) h less = refl
      go (ok none) h less = refl
      go (ok (some m)) h less =
          continue-agree {E = λ _. Unit {0}} {Q = λ _ q. q.queue ≡ r.queue} _ _
            (Ensures-any (on_world (out.send channel m) r) tt (λ _ _. refl)) (sent_same less m h)

  -- `drain` gives what its loop gives with any more fuel than the stream has messages, whatever is done
  -- without fuel: the fuel never runs out.
  pub drain_on-settles :
      (last : Exec (SessionRouter W N) Bool) (fuel : ℕ) (id : Text) (channel : Channel)
      (r : SessionRouter W N)
      → held (lookup id r.queue.streams) < fuel
      → drain_on out last fuel id channel r ≡ drain out id channel r
  unfolding drain
  drain_on-settles last fuel id channel r less =
      drain_on-agree last no_fuel fuel (held (lookup id r.queue.streams) + 1) id channel r less
        (omega arith)
