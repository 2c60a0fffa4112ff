-- ===== src/Router/RequestCache/Accounting.antt =====
-- request-cache.ts: the byte accounting and the limits.
use package.ros_webrtc_bridge.Prelude.{
  ℕ, ◌+◌, ◌*◌, ◌≤◌, ◌<◌, ◌≡◌, refl, not, Option, none, some, List, length, Text, arith,
}
use package.ros_webrtc_bridge.Prelude.Dict.{
  lookup, total, Distinct, AllValues, keep-Distinct, put-Distinct, length-keep-le, length-put_new,
  total-keep, total-put_new, AllValues-keep, AllValues-put,
}
use package.ros_webrtc_bridge.Runtime.Outcome.{Outcome, ok}
use package.ros_webrtc_bridge.Runtime.Exec.{
  continue, Ensures, returned, Ensures-lift, Ensures-state,
}
use package.ros_webrtc_bridge.Router.RequestCache.{
  Cached, RequestCache, init, is_expired, sweep, find, reserve, store, answer, serve,
}

abbrev pub bytes_of : Cached → ℕ
bytes_of e = e.bytes

-- An entry is charged for its request, two bytes for a code unit, and its response.
abbrev pub IsCharged : Cached → Type 0
IsCharged e = e.bytes ≡ length e.input * 2 + length e.output

pub record IsValid (c : RequestCache) : Type 0 where
  pub distinct : Distinct c.entries
  pub counted : c.bytes ≡ total bytes_of c.entries
  pub fits : length c.entries ≤ c.max_entries
  pub budget : c.bytes ≤ c.max_bytes
  pub charged : AllValues IsCharged c.entries

pub init-IsValid : (max_entries ttl_ms max_bytes : ℕ) → IsValid (init max_entries ttl_ms max_bytes)
unfolding init
init-IsValid max_entries ttl_ms max_bytes = record {
  distinct = tt;
  counted = refl;
  fits = omega arith;
  budget = omega arith;
  charged = tt;
}

pub sweep-IsValid : (now : ℕ) (c : RequestCache) → IsValid c → IsValid (sweep now c)
unfolding sweep
sweep-IsValid now c v =
    let split =
      total-keep bytes_of (is_expired now) (λ e. not (is_expired now e)) (λ _. refl) c.entries in
    record {
      distinct = keep-Distinct _ c.entries v.distinct;
      counted = omega (arith, split, v.counted);
      fits = omega (arith, length-keep-le (λ e. not (is_expired now e)) c.entries, v.fits);
      budget = omega (arith, v.budget);
      charged = AllValues-keep IsCharged _ c.entries v.charged;
    }

pub store-IsValid :
    (id input : Text) (output : List ℕ) (now max : ℕ) (c : RequestCache) (u : Unit {0})
    → IsValid c
    → lookup id c.entries ≡ none
    → length c.entries < c.max_entries
    → reserve (max + length input * 2) c ≡ ok u
    → length output ≤ max
    → IsValid (store id input output now c)
unfolding store reserve
store-IsValid id input output now max c u v fresh room reserved sized = record {
  distinct = put-Distinct id _ c.entries v.distinct;
  counted = omega (arith, total-put_new bytes_of id cached c.entries fresh, v.counted);
  fits = omega (arith, length-put_new id cached c.entries fresh);
  budget = ground (arith, v.budget);
  charged = AllValues-put IsCharged id cached c.entries refl v.charged;
}
  where
    cached : Cached
    cached = record {
      input = input;
      output = output;
      expires = now + c.ttl_ms;
      bytes = length input * 2 + length output;
    }

-- A miss means that the request is unknown and that there is room for one more.
pub find_miss :
    (id input : Text) (c : RequestCache)
    → find id input c ≡ ok none
    → (lookup id c.entries ≡ none) × (length c.entries < c.max_entries)
unfolding find
find_miss id input c h = ground arith

-- If what the operation gives is at most `max_bytes` long, as the encoding sees to, then a request
-- served keeps the cache valid, throws included: its byte count is that of its entries and within the
-- budget, its entries are within their number, and no request is there twice.
pub serve-IsValid :
    (max : ℕ) (id input : Text) (now : ℕ) (operation : Outcome (List ℕ)) (c : RequestCache)
    → IsValid c
    → ((output : List ℕ) → operation ≡ ok output → length output ≤ max)
    → IsValid (serve max id input now operation c).1
unfolding serve continue
serve-IsValid max id input now operation c v sized =
    Ensures-state {Q = λ _ c'. IsValid c'}
      (Ensures-lift (find id input (sweep now c)) _ swept λ r found. answered r found) (λ _ _ w. w)
  where
    swept : IsValid (sweep now c)
    swept = sweep-IsValid now c v

    answered :
        (r : Option (List ℕ))
        → find id input (sweep now c) ≡ ok r
        → Ensures IsValid (λ _ c'. IsValid c') (answer max id input now operation r (sweep now c))
    answered (some bytes) found = returned swept
    answered none found =
        let (fresh, room) = find_miss id input (sweep now c) found in
        Ensures-lift (reserve (max + length input * 2) (sweep now c)) _ swept λ u reserved.
          Ensures-lift operation _ swept λ output done. returned (
            store-IsValid id input output now max (sweep now c) u swept fresh room reserved
              (sized output done))
