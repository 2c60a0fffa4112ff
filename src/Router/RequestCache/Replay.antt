-- ===== src/Router/RequestCache/Replay.antt =====
-- request-cache.ts: a request that was executed is not executed again while its response lives.
use package.ros_webrtc_bridge.Prelude.{
  ℕ, ◌+◌, ◌*◌, ◌<◌, ◌≡◌, refl, ◌∙◌, not, Option, none, some, List, [], ◌∷◌, length, Text, same_text,
  text_discrete, All, if◌then◌else◌, arith,
}
use mathlib.Core.Path.{subst}
use package.ros_webrtc_bridge.Prelude.Dict.{
  lookup, Distinct, keep-Distinct, put-Distinct, lookup-keep, lookup-put_ne, lookup-put_self,
}
use package.ros_webrtc_bridge.Runtime.Outcome.{Outcome, ok, throw, request_conflict}
use package.ros_webrtc_bridge.Runtime.Exec.{
  continue, Ensures, returned, Ensures-lift, Ensures-state, Ensures-ok,
}
use package.ros_webrtc_bridge.Router.RequestCache.{
  Cached, RequestCache, replayed, executed, is_expired, sweep, find, reserve, store, answer, serve,
}
use package.ros_webrtc_bridge.Router.RequestCache.Accounting.{find_miss}

-- A request: its identifier, its text, its time, and what its operation would give.
pub record Request : Type 0 where
  pub id : Text
  pub input : Text
  pub now : ℕ
  pub operation : Outcome (List ℕ)

unfoldable pub run : ℕ → List Request → RequestCache → RequestCache
run max [] c = c
run max (r ∷ rs) c = run max rs (serve max r.id r.input r.now r.operation c).1

-- The entry is cached, and the identifiers are distinct.
record Holds (id : Text) (e : Cached) (c : RequestCache) : Type 0 where
  distinct : Distinct c.entries
  there : lookup id c.entries ≡ some e

sweep-Holds :
    (id : Text) (e : Cached) (now : ℕ) (c : RequestCache)
    → now < e.expires
    → Holds id e c
    → Holds id e (sweep now c)
unfolding sweep
sweep-Holds id e now c alive h = record {
  distinct = keep-Distinct _ c.entries h.distinct;
  there =
      ground (arith, lookup-keep (λ x. not (is_expired now x)) id c.entries h.distinct, h.there);
}

store-Holds :
    (id : Text) (e : Cached) (j input : Text) (output : List ℕ) (now : ℕ) (c : RequestCache)
    → lookup j c.entries ≡ none
    → Holds id e c
    → Holds id e (store j input output now c)
unfolding store
store-Holds id e j input output now c fresh h = record {
  distinct = put-Distinct j _ c.entries h.distinct;
  there = elim (text_discrete j id) [
    | yes p ↦ absurd (cc (h.there))
    | no p ↦ lookup-put_ne id j _ c.entries p ∙ h.there
  ];
}

serve-Holds :
    (max : ℕ) (id : Text) (e : Cached) (r : Request) (c : RequestCache)
    → r.now < e.expires
    → Holds id e c
    → Holds id e (serve max r.id r.input r.now r.operation c).1
unfolding serve continue
serve-Holds max id e r c alive h =
    Ensures-state {Q = λ _ c'. Holds id e c'}
      (Ensures-lift (find r.id r.input (sweep r.now c)) _ swept answered) (λ _ _ w. w)
  where
    swept : Holds id e (sweep r.now c)
    swept = sweep-Holds id e r.now c alive h

    answered :
        (o : Option (List ℕ))
        → find r.id r.input (sweep r.now c) ≡ ok o
        → Ensures
            (Holds id e)
            (λ _ c'. Holds id e c')
            (answer max r.id r.input r.now r.operation o (sweep r.now c))
    answered (some bytes) found = returned swept
    answered none found =
        let (fresh, room) = find_miss r.id r.input (sweep r.now c) found in
        Ensures-lift (reserve (max + length r.input * 2) (sweep r.now c)) _ swept λ u reserved.
          Ensures-lift r.operation _ swept λ output done.
            returned (store-Holds id e r.id r.input output r.now (sweep r.now c) fresh swept)

run-Holds :
    (max : ℕ) (id : Text) (e : Cached) (rs : List Request) (c : RequestCache)
    → All (λ (r : Request). r.now < e.expires) rs
    → Holds id e c
    → Holds id e (run max rs c)
unfolding run
run-Holds max id e [] c alive h = h
run-Holds max id e (r ∷ rs) c alive h =
    run-Holds max id e rs _ alive.1 (serve-Holds max id e r c alive.0 h)

-- A cached entry answers its own request, and refuses its identifier to another.
hit :
    (max : ℕ) (id : Text) (e : Cached) (now : ℕ) (input : Text) (operation : Outcome (List ℕ))
    (c : RequestCache)
    → now < e.expires
    → Holds id e c
    → (serve max id input now operation c).0
      ≡ (if same_text e.input input then ok (replayed e.output) else throw request_conflict)
unfolding serve continue find answer
hit max id e now input operation c alive h =
    let swept = sweep-Holds id e now c alive h in ground (arith, swept.there)

abbrev stored : RequestCache → Text → List ℕ → ℕ → Cached
stored c input output now = record {
  input = input;
  output = output;
  expires = now + c.ttl_ms;
  bytes = length input * 2 + length output;
}

-- What an executed request leaves in the cache.
executed-Ensures :
    (max : ℕ) (id input : Text) (now : ℕ) (operation : Outcome (List ℕ)) (c : RequestCache)
    → Distinct c.entries
    → Ensures
        (λ _. Unit {0})
        (λ served c'.
          (output : List ℕ) → served ≡ executed output → Holds id (stored c input output now) c')
        (serve max id input now operation c)
unfolding serve continue
executed-Ensures max id input now operation c d =
    Ensures-lift (find id input (sweep now c)) _ tt answered
  where
    answered :
        (o : Option (List ℕ))
        → find id input (sweep now c) ≡ ok o
        → Ensures
            (λ _. Unit {0})
            (λ served c'.
              (output : List ℕ)
              → served ≡ executed output
              → Holds id (stored c input output now) c')
            (answer max id input now operation o (sweep now c))
    answered (some bytes) found = returned (λ output e. absurd (cc))
    answered none found =
        Ensures-lift (reserve (max + length input * 2) (sweep now c)) _ tt λ u reserved.
          Ensures-lift operation _ tt λ given done. returned λ output e.
            let same : given ≡ output = ground arith in
            subst (λ o. Holds id (stored c input o now) (store id input given now (sweep now c)))
              same
              (record {
                distinct = put-Distinct id _ _ (keep-Distinct _ c.entries d);
                there = lookup-put_self id _ _;
              })

-- Once a request has been executed, and after any other requests until its response runs out, the same
-- request is answered with the stored response without being executed, and a different request under
-- its identifier is refused.
pub serve-replays :
    (max : ℕ) (id input : Text) (now : ℕ) (operation : Outcome (List ℕ)) (c c' : RequestCache)
    (output : List ℕ) (rs : List Request) (input' : Text) (now' : ℕ) (operation' : Outcome (List ℕ))
    → Distinct c.entries
    → serve max id input now operation c ≡ (ok (executed output), c')
    → All (λ (r : Request). r.now < now + c.ttl_ms) rs
    → now' < now + c.ttl_ms
    → (serve max id input' now' operation' (run max rs c')).0
      ≡ (if same_text input input' then ok (replayed output) else throw request_conflict)
serve-replays max id input now operation c c' output rs input' now' operation' d e others alive =
    let entry = stored c input output now in
    let first =
      Ensures-ok (executed output) c' (executed-Ensures max id input now operation c d) e output
        refl in
    hit max id entry now' input' operation' (run max rs c') alive
      (run-Holds max id entry rs c' others first)
