-- ===== src/Router/RequestCache/Tests.antt =====
-- request-cache.ts at concrete inputs, and the theorems applied.
use package.ros_webrtc_bridge.Prelude.{
  ℕ, ◌≡◌, refl, List, [], ◌∷◌, codes, text_discrete, length, ◌≤◌, arith, same_text, if◌then◌else◌,
}
use package.ros_webrtc_bridge.Prelude.Dict.{lookup, put, keep}
use package.ros_webrtc_bridge.Runtime.Outcome.{ok, throw, Outcome, request_conflict, cache_limit}
use package.ros_webrtc_bridge.Runtime.Exec.{continue}
use package.ros_webrtc_bridge.Router.RequestCache.{
  RequestCache, replayed, executed, init, sweep, find, reclaim, reserve, store, clear, answer,
  serve,
}
use package.ros_webrtc_bridge.Router.RequestCache.Accounting.{IsValid, serve-IsValid, init-IsValid}
use package.ros_webrtc_bridge.Router.RequestCache.Replay.{Request, run, serve-replays}

program : Unit {0}
unfolding init sweep find reclaim reserve store clear answer serve continue lookup put keep run
    text_discrete
program = tt

abbrev empty : RequestCache
empty = record { max_entries = 2; ttl_ms = 100; max_bytes = 40; entries = []; bytes = 0 }

starts_empty : init 2 100 40 ≡ empty
unfolding program
starts_empty = refl

empty-IsValid : IsValid empty
unfolding program
empty-IsValid = init-IsValid 2 100 40

abbrev first : Outcome (List ℕ)
first = ok (1 ∷ 2 ∷ [])

first_operation : (output : List ℕ) → first ≡ ok output → length output ≤ 16
first_operation output e = grind arith

serve-IsValid_example : IsValid (serve 16 (codes "r1") (codes "ab") 10 first empty).1
serve-IsValid_example =
    serve-IsValid 16 (codes "r1") (codes "ab") 10 first empty empty-IsValid first_operation

abbrev after : RequestCache
after = (serve 16 (codes "r1") (codes "ab") 10 first empty).1

answers_first :
    serve 16 (codes "r1") (codes "ab") 10 first empty ≡ (ok (executed (1 ∷ 2 ∷ [])), after)
unfolding program
answers_first = refl

abbrev others : List Request
others =
    record { id = codes "r2"; input = codes "cd"; now = 50; operation = ok (7 ∷ []) }
    ∷ record { id = codes "r3"; input = codes "ef"; now = 60; operation = ok (8 ∷ []) }
    ∷ []

serve-replays_example :
    (serve 16 (codes "r1") (codes "ab") 109 (ok (3 ∷ [])) (run 16 others after)).0 ≡ (
      if same_text (codes "ab") (codes "ab")
      then ok (replayed (1 ∷ 2 ∷ []))
      else throw request_conflict)
serve-replays_example =
    serve-replays 16 (codes "r1") (codes "ab") 10 first empty after (1 ∷ 2 ∷ []) others (codes "ab")
      109 (ok (3 ∷ [])) (empty-IsValid.distinct) answers_first (omega arith, (omega arith, tt))
      (omega arith)

-- At its expiry the entry is gone, and the operation runs again.
serve_expired :
    (serve 16 (codes "r1") (codes "ab") 110 (ok (3 ∷ [])) after).0 ≡ ok (executed (3 ∷ []))
unfolding program
serve_expired = refl

serve_conflict :
    (serve 16 (codes "r1") (codes "xy") 50 (ok (3 ∷ [])) after).0 ≡ throw request_conflict
unfolding program
serve_conflict = refl

serve_no_room : (serve 40 (codes "r2") (codes "ab") 50 (ok (3 ∷ [])) after).0 ≡ throw cache_limit
unfolding program
serve_no_room = refl

clear_empties : clear after ≡ empty
unfolding program
clear_empties = refl
