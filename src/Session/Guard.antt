-- ===== src/Session/Guard.antt =====
-- packages/bridge/src/session/command-guard.ts: sessions, the publisher handles of their topics, and the
-- time-limited leases that make one session the writer of a topic.
--
-- The clock and the authorization hook are the caller's. A call reads the clock and runs the hook at most
-- once, so each call takes a `Host` of its own with the reading and the effect of the hook, which may
-- itself call the guard and leaves another guard state. The random prefix of the identifiers is an
-- argument of the constructor.
pub mod Topic
pub mod Invariant
pub mod Writes
pub mod Registers
pub mod Additions
pub mod Parts
pub mod Commands
pub mod Leases
pub mod Opens
pub mod History
pub mod Order
pub mod Revoked
pub mod Grants
mod Tests
use package.ros_webrtc_bridge.Prelude.{
  ℕ, ◌+◌, Bool, true, false, not, ◌&&◌, ◌||◌, Option, none, some, List, [], ◌∷◌, ◌++◌, ltb, leb,
  if◌then◌else◌, is_some, length, Text, same_text, ℤ, pos, negsuc, leb_ℤ,
}
use package.ros_webrtc_bridge.Prelude.Dict.{lookup, put, delete, map_values, keep, values}
use package.ros_webrtc_bridge.Runtime.Outcome.{
  Outcome, ok, throw, or_throw, max_safe_integer, Reading, at, below_zero, not_finite,
  session_limit, unknown_session, invalid_topic, unauthorized, handle_limit, writer_busy,
  invalid_clock, invalid_owner, invalid_epoch, invalid_lease, lease_expired, stale_sequence,
  ticket_consumed, guard_closed,
}
use package.ros_webrtc_bridge.Runtime.Exec.{
  Exec, pure, lift, gets, ensure, modify, continue, ◌>>=◌, ◌>>◌,
}
use package.ros_webrtc_bridge.Runtime.Decimal.{print}
use package.ros_webrtc_bridge.Session.Validation.{identifier, positive_limit, sequence}
use Topic.{is_topic}

pub record CommandIdentity : Type 0 where
  pub session_id : Text
  pub epoch : Text
  pub handle : Text
  pub topic : Text

pub record CommandRequest : Type 0 where
  pub session_id : Text
  pub epoch : Text
  pub handle : Text
  pub lease_id : Text
  pub seq : Text

pub record Lease : Type 0 where
  pub id : Text
  pub expires_at : ℕ

pub record HandleState : Type 0 where
  pub identity : CommandIdentity
  pub open identity use *
  pub lease_ms : ℕ
  pub lease : Option Lease
  pub received : ℤ
  pub published : ℤ

pub record GuardLimits : Type 0 where
  pub max_sessions : ℕ
  pub max_handles : ℕ
  pub lease_ms : ℕ

pub record CommandGuard : Type 0 where
  pub options : GuardLimits
  pub prefix : Text
  pub next_id : ℕ
  pub last_time : ℕ
  pub sessions : List (Text × Text)
  pub handles : List (Text × HandleState)
  pub closed : Bool

pub data Phase : Type 0 where
  opening arming receiving publishing : Phase

-- What one call of the guard meets outside it.
pub record Host : Type 0 where
  pub clock : Reading
  pub authorize : CommandIdentity → Phase → Exec CommandGuard Bool

abbrev pub Method : Type 0 → Type 0
Method = Exec CommandGuard

unfoldable pub read_clock : Reading → Method ℕ
read_clock (at value) g =
    if ltb max_safe_integer value || ltb value g.last_time
    then (throw invalid_clock, g)
    else (ok value, record g { last_time = value })
read_clock below_zero g = (throw invalid_clock, g)
read_clock not_finite g = (throw invalid_clock, g)

abbrev pub now : Host → Method ℕ
now host = read_clock host.clock

-- `${this.prefix}:${this.nextId}`
unfoldable pub id_text : Text → ℕ → Text
id_text prefix n = prefix ++ b':' ∷ print n

unfoldable pub next : CommandGuard → CommandGuard
next g = record g { next_id = g.next_id + 1 }

unfoldable pub id : Method Text
unfolding next
id g = (ok (id_text g.prefix (g.next_id + 1)), next g)

-- The constructor's tests and its reading of the clock.
unfoldable pub start : GuardLimits → Reading → Method CommandGuard
unfolding positive_limit read_clock continue
start options reading = do
  lift (positive_limit options.max_sessions)
  lift (positive_limit options.max_handles)
  lift (positive_limit options.lease_ms)
  read_clock reading
  gets (λ g. g)

unfoldable pub init : GuardLimits → Text → Reading → Outcome CommandGuard
unfolding start
init options prefix reading =
    (start options reading (record {
      options = options;
      prefix = prefix;
      next_id = 0;
      last_time = 0;
      sessions = [];
      handles = [];
      closed = false;
    })).0

unfoldable pub assert_open : Method (Unit {0})
assert_open g = ensure (not g.closed) guard_closed g

unfoldable pub authorize : Host → CommandIdentity → Phase → Method (Unit {0})
authorize host identity phase = do
  allowed ← host.authorize identity phase
  ensure allowed unauthorized

unfoldable pub owned : Text → Text → Method HandleState
unfolding assert_open
owned session_id handle = do
  assert_open
  found ← gets (λ g. lookup handle g.handles)
  state ← lift (or_throw found invalid_owner)
  ensure (same_text state.session_id session_id) invalid_owner
  pure state

unfoldable pub validate : Host → CommandRequest → Phase → Method HandleState
validate host request phase = do
  before ← owned request.session_id request.handle
  authorize host before.identity phase
  state ← owned request.session_id request.handle
  ensure (same_text request.epoch state.epoch) invalid_epoch
  lease ← lift (or_throw state.lease invalid_lease)
  ensure (same_text request.lease_id lease.id) invalid_lease
  time ← now host
  ensure (ltb time lease.expires_at) lease_expired
  pure state

unfoldable pub open_session : Text → Method Text
open_session epoch = do
  assert_open
  lift (identifier epoch)
  count ← gets (λ g. length g.sessions)
  limit ← gets (λ g. g.options.max_sessions)
  ensure (ltb count limit) session_limit
  session_id ← id
  modify (λ g. record g { sessions = put session_id epoch g.sessions })
  pure session_id

abbrev or_default : Option ℕ → ℕ → ℕ
or_default none d = d
or_default (some n) d = n

-- `none` stands for a lease duration left out.
unfoldable pub open_handle : Host → Text → Text → Option ℕ → Method Text
open_handle host session_id topic lease_ms = do
  default_ms ← gets (λ g. g.options.lease_ms)
  assert_open
  lift (positive_limit (or_default lease_ms default_ms))
  session ← gets (λ g. lookup session_id g.sessions)
  epoch ← lift (or_throw session unknown_session)
  ensure (is_topic topic && leb (length topic) 247) invalid_topic
  handle ← id
  let identity : CommandIdentity = record {
    session_id = session_id;
    epoch = epoch;
    handle = handle;
    topic = topic;
  }
  authorize host identity opening
  still ← gets (λ g. lookup session_id g.sessions)
  ensure (is_some still) unknown_session
  count ← gets (λ g. length g.handles)
  limit ← gets (λ g. g.options.max_handles)
  ensure (ltb count limit) handle_limit
  let state : HandleState = record {
    identity = identity;
    lease_ms = or_default lease_ms default_ms;
    lease = none;
    received = negsuc 0;
    published = negsuc 0;
  }
  modify (λ g. record g { handles = put handle state g.handles })
  pure handle

abbrev pub is_live : ℕ → Option Lease → Bool
is_live time none = false
is_live time (some lease) = ltb time lease.expires_at

-- The first loop of `arm`: another session's live lease on the topic.
unfoldable pub is_busy : Text → Text → ℕ → List HandleState → Bool
is_busy topic session_id time [] = false
is_busy topic session_id time (s ∷ rest) =
    same_text s.topic topic && not (same_text s.session_id session_id) && is_live time s.lease
    || is_busy topic session_id time rest

-- The second loop of `arm`.
unfoldable pub disarm : Text → HandleState → HandleState
disarm topic s = if same_text s.topic topic then record s { lease = none } else s

unfoldable pub arm : Host → Text → Text → Method Lease
arm host session_id handle = do
  before ← owned session_id handle
  authorize host before.identity arming
  state ← owned session_id handle
  time ← now host
  others ← gets (λ g. values g.handles)
  ensure (not (is_busy state.topic session_id time others)) writer_busy
  ensure (leb (time + state.lease_ms) max_safe_integer) invalid_clock
  modify (λ g. record g { handles = map_values (disarm state.topic) g.handles })
  lease_id ← id
  let lease : Lease = record { id = lease_id; expires_at = time + state.lease_ms }
  modify (λ g. record g { handles = put handle (record state { lease = some lease }) g.handles })
  pure lease

pub record CommandTicket : Type 0 where
  pub request : CommandRequest
  pub seq : ℕ
  pub consumed : Bool

unfoldable pub prepare : Host → CommandRequest → Method CommandTicket
prepare host request = do
  seq ← lift (sequence request.seq)
  state ← validate host request receiving
  ensure (not (leb_ℤ (pos seq) state.received)) stale_sequence
  modify (λ g. record g {
    handles = put request.handle (record state { received = pos seq }) g.handles;
  })
  pure (record { request = request; seq = seq; consumed = false })

-- `publish` of a ticket up to the call of the publisher's function.
unfoldable pub reserve : Host → CommandRequest → ℕ → Method (Unit {0})
reserve host request seq = do
  current ← validate host request publishing
  ensure (not (leb_ℤ (pos seq) current.published)) stale_sequence
  modify (λ g. record g {
    handles = put request.handle (record current { published = pos seq }) g.handles;
  })

-- `send` is the publisher's function. The ticket that is left is the second part.
unfoldable pub publish :
    Host
    → Method (Unit {0})
    → CommandTicket
    → CommandGuard
    → (Outcome (Unit {0}) × CommandGuard) × CommandTicket
publish host send ticket g =
    if ticket.consumed
    then ((throw ticket_consumed, g), ticket)
    else ((reserve host ticket.request ticket.seq >> send) g, record ticket { consumed = true })

unfoldable pub close_handle : Text → Text → Method (Unit {0})
close_handle session_id handle = do
  owned session_id handle
  modify (λ g. record g { handles = delete handle g.handles })

unfoldable pub revoke_session : Text → CommandGuard → CommandGuard
revoke_session session_id g = record g {
  sessions = delete session_id g.sessions;
  handles = keep (λ s. not (same_text s.session_id session_id)) g.handles;
}

unfoldable pub close : CommandGuard → CommandGuard
close g = record g { closed = true; sessions = []; handles = [] }

pub record GuardStats : Type 0 where
  pub sessions : ℕ
  pub handles : ℕ

unfoldable pub stats : CommandGuard → GuardStats
stats g = record { sessions = length g.sessions; handles = length g.handles }
