-- ===== src/Grpc/Call.antt =====
-- grpcidem/grpcidem.go and grpcidem/policy.go: a call, its handler, the configuration of the
-- interceptor, and the delay that a rejection names.
use idemlease.Base.{
  ℕ, ◌+◌, ◌*◌, ◌/◌, Bytes, ltb, Bool, false, if◌then◌else◌, Option, none, some, List,
}
use idemlease.Base.Int.{pos, negsuc}
use idemlease.Core.Time.{Duration, second, max_duration}
use idemlease.Core.Store.{Error}
use idemlease.Core.Lease.{Decision, persist, discard}

-- A request or response, which gRPC hands over as any value: a proto message, a typed nil (a nil pointer
-- to a message, which is a proto message, but not a valid one), or something else (no proto message, or
-- nil).
pub data Value (Msg : Type 0) : Type 0 where
  proto_message : Msg → Value Msg
  typed_nil no_message : Value Msg

-- A unary call: its method, the metadata's entries for the idempotency key, and its request.
pub record Call (Msg : Type 0) : Type 0 where
  pub full_method : Bytes
  pub entries : Option (List Bytes)
  pub request : Value Msg

-- gRPC's status errors: those of the interceptor by their code, and the handler's by a number.
pub data Status : Type 0 where
  invalid_argument internal unavailable failed_precondition : Status
  aborted : Duration → Status
  handler_status : ℕ → Status

-- How a handler ends: with a response and perhaps an error, or with a panic.
pub data Ended (Msg : Type 0) : Type 0 where
  replied : Value Msg → Option Status → Ended Msg
  panicked : ℕ → Ended Msg

-- `grpc.UnaryHandler`, with what it does to the world.
abbrev pub UnaryHandler : Type 0 → Type 0 → Type 0
UnaryHandler W Msg = Call Msg → W → Ended Msg × W

-- `ReplayPolicy`
abbrev pub ReplayPolicy : Type 0
ReplayPolicy = Option Status → Decision

-- `defaultDecide`
unfoldable pub default_decide : ReplayPolicy
default_decide none = persist
default_decide (some e) = discard

-- `config`; the logger is the list of events.
pub record CallConfig (Msg : Type 0) : Type 0 where
  pub require : Bool
  pub lease_ttl : Duration
  pub record_ttl : Duration
  pub policy : ReplayPolicy
  pub fail_open : Bool
  pub key_scope : Option (Call Msg → Bytes)
  pub key_valid : Option (Bytes → Bool)

-- The defaults of `UnaryServerInterceptor`.
abbrev pub default_call_config : {Msg : Type 0} → CallConfig Msg
default_call_config = record {
  require = false;
  lease_ttl = pos 0;
  record_ttl = pos 0;
  policy = default_decide;
  fail_open = false;
  key_scope = none;
  key_valid = none;
}

-- What the interceptor logs, and the header that marks a replay.
pub data CallEvent (Msg : Type 0) : Type 0 where
  handled : Call Msg → CallEvent Msg
  marked_replayed : CallEvent Msg
  proceeding_without_idempotency release_after_panic_failed persist_failed : Error → CallEvent Msg
  best_effort_release_failed release_failed : Error → CallEvent Msg
  encoding_failed lease_lost corrupted_payload : CallEvent Msg

pub record Service (W Msg : Type 0) : Type 0 where
  pub world : W
  pub events : List (CallEvent Msg)

-- `d.Round(time.Second)` of a positive duration: half a second rounds up, and a sum beyond int64 gives
-- the largest duration.
unfoldable pub round_second : ℕ → ℕ
round_second n =
    let rounded = (n + second / 2) / second * second in
    if ltb max_duration rounded then max_duration else rounded

-- `retryAfter`
unfoldable pub retry_after : Duration → Duration
retry_after (negsuc n) = pos second
retry_after (pos n) = if ltb n second then pos second else pos (round_second n)
