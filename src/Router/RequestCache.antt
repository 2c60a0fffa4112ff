-- ===== src/Router/RequestCache.antt =====
-- packages/bridge/src/router/request-cache.ts, and the part of `control` in router/index.ts that runs an
-- operation through it.
pub mod Accounting
pub mod Replay
mod Tests
use package.ros_webrtc_bridge.Prelude.{
  ℕ, ◌+◌, ◌-◌, ◌*◌, Bool, not, Option, none, some, List, [], ltb, leb, if◌then◌else◌, length, Text,
  same_text,
}
use package.ros_webrtc_bridge.Prelude.Dict.{lookup, put, keep, total}
use package.ros_webrtc_bridge.Runtime.Outcome.{
  Outcome, ok, throw, require, Error, request_conflict, request_limit, cache_limit,
}
use package.ros_webrtc_bridge.Runtime.Exec.{Exec, pure, lift, gets, modify, continue, ◌>>=◌, ◌>>◌}

pub record Cached : Type 0 where
  pub input : Text
  pub output : List ℕ
  pub expires : ℕ
  pub bytes : ℕ

pub record RequestCache : Type 0 where
  pub max_entries : ℕ
  pub ttl_ms : ℕ
  pub max_bytes : ℕ
  pub entries : List (Text × Cached)
  pub bytes : ℕ

unfoldable pub init : ℕ → ℕ → ℕ → RequestCache
init max_entries ttl_ms max_bytes = record {
  max_entries = max_entries;
  ttl_ms = ttl_ms;
  max_bytes = max_bytes;
  entries = [];
  bytes = 0;
}

abbrev pub is_expired : ℕ → Cached → Bool
is_expired now cached = leb cached.expires now

-- The loop of `lookup`: an expired entry is deleted and its bytes are given back.
unfoldable pub sweep : ℕ → RequestCache → RequestCache
sweep now c = record c {
  entries = keep (λ e. not (is_expired now e)) c.entries;
  bytes = c.bytes - total (λ (e : Cached). e.bytes) (keep (is_expired now) c.entries);
}

-- `lookup` behind the loop.
unfoldable pub find : Text → Text → RequestCache → Outcome (Option (List ℕ))
unfolding lookup
find id input c = elim (lookup id c.entries) [
  | none ↦ if leb c.max_entries (length c.entries) then throw request_limit else ok none
  | some existing ↦
      if same_text existing.input input then ok (some existing.output) else throw request_conflict
]

unfoldable pub reclaim : Text → Text → ℕ → Exec RequestCache (Option (List ℕ))
unfolding sweep
reclaim id input now c = (find id input (sweep now c), sweep now c)

-- `max_response_bytes > max_bytes - bytes`, without the subtraction.
unfoldable pub reserve : ℕ → RequestCache → Outcome (Unit {0})
reserve max_response_bytes c =
    require (not (ltb c.max_bytes (max_response_bytes + c.bytes))) cache_limit

unfoldable pub store : Text → Text → List ℕ → ℕ → RequestCache → RequestCache
store id input output now c =
    let bytes : ℕ = length input * 2 + length output in
    let cached : Cached = record {
      input = input;
      output = output;
      expires = now + c.ttl_ms;
      bytes = bytes;
    } in
    record c { entries = put id cached c.entries; bytes = c.bytes + bytes }

unfoldable pub clear : RequestCache → RequestCache
clear c = record c { entries = []; bytes = 0 }

-- A request is answered from the cache, or its operation runs.
pub data Served : Type 0 where
  replayed executed : List ℕ → Served

-- The rest of `control` behind the lookup: `operation` is what the operation gives, encoded, or the
-- error that it or the encoding throws.
unfoldable pub answer :
    ℕ → Text → Text → ℕ → Outcome (List ℕ) → Option (List ℕ) → Exec RequestCache Served
unfolding continue reserve store
answer max_bytes id input now operation (some bytes) = pure (replayed bytes)
answer max_bytes id input now operation none = do
  room ← gets (λ c. reserve (max_bytes + length input * 2) c)
  lift room
  bytes ← lift operation
  modify (store id input bytes now)
  pure (executed bytes)

unfoldable pub serve : ℕ → Text → Text → ℕ → Outcome (List ℕ) → Exec RequestCache Served
unfolding reclaim continue answer
serve max_bytes id input now operation = do
  cached ← reclaim id input now
  answer max_bytes id input now operation cached
