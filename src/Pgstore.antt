-- ===== src/Pgstore.antt =====
-- pgstore/pgstore.go: the store in PostgreSQL, as a client sees it.
pub mod Rows
pub mod Sweeping
pub mod Slots
pub mod Steps
pub mod Transitions
pub mod Housekeeping
pub mod Joining
pub mod Recovery
pub mod Reserving
pub mod Atomic
mod Tests
use idemlease.Base.{
  ℕ, zero, suc, ◌+◌, ◌*◌, ◌-◌, ◌%◌, ◌^◌, ◌==◌, Bytes, bytes_eq, if◌then◌else◌, not, Bool, true,
  false, ◌&&◌, Option, none, some, List,
}
use idemlease.Base.Decimal.{to_int64}
use idemlease.Base.Int.{ℤ, pos, negsuc}
use idemlease.Base.Monad.{M, pure, ◌>>=◌}
use idemlease.Core.Time.{Time, Duration, add, sub, zero_time, millisecond, at_least_one_ms}
use idemlease.Core.Record.{Record, State, reserved, completed}
use idemlease.Core.Node.{Node, send}
use idemlease.Core.Node
use idemlease.Core.Store.{
  Error, Result, ok, err, Store, sentinel, already_exists, token_mismatch, not_found, other,
  wrapped,
}
use Rows.{
  Table, Selected, state_reserved, state_completed, q_reserve, q_get, q_complete, q_classify,
  q_classify_tx, q_release,
}
use Sweeping.{q_sweep}

-- The errors that the package makes itself; `ErrAlreadyCompleted` is one of them.
abbrev pub kept_losing : Error
kept_losing = other 301

abbrev pub invalid_row : Error
invalid_row = other 302

abbrev pub already_completed : Error
already_completed = other 303

-- Time that goes by on the server.
abbrev pub pass : ℕ → Table → Table
pass d s = record s { time = s.time + d }

abbrev pub now : M (Node Table) Time
now = Node.now pass

-- `recordTTLMillis`
abbrev pub record_ttl_millis : Duration → ℕ
record_ttl_millis d = at_least_one_ms d

-- `leaseTTLMillis`, with the reading of the clock that `time.Until` takes.
abbrev pub lease_ttl_millis : Record → Time → ℕ
lease_ttl_millis rec t = at_least_one_ms (sub rec.lease_expires_at t)

-- `time.Duration(ms) * time.Millisecond`, an int64.
abbrev pub ms_duration : ℤ → Duration
ms_duration (pos n) = to_int64 (n * millisecond)
ms_duration (negsuc n) = to_int64 (2 ^ 64 - suc n * millisecond % 2 ^ 64)

abbrev pub deadline_in : Option ℤ → Time → Time
deadline_in none t = zero_time
deadline_in (some ms) t = add t (ms_duration ms)

-- `scanRecord` of a row that was read, with the clock then.
unfoldable pub scan_record : Bytes → Selected → Time → Result Record
scan_record key row t =
    if row.state == state_reserved
    then ok (record {
      key = key;
      fingerprint = row.fingerprint;
      state = reserved;
      token = row.token;
      lease_expires_at = add t (ms_duration row.lease_ms);
      record_expires_at = zero_time;
      payload = row.payload;
    })
    else if row.state == state_completed
    then ok (record {
      key = key;
      fingerprint = row.fingerprint;
      state = completed;
      token = row.token;
      lease_expires_at = zero_time;
      record_expires_at = deadline_in row.record_ms t;
      payload = row.payload;
    })
    else err invalid_row

abbrev read_existing : Result Record → Option Record × Option Error
read_existing (err e) = (none, some (wrapped e))
read_existing (ok rec) = (some rec, some (sentinel already_exists))

-- What a round of `Reserve` makes of the row that blocks it.
unfoldable pub on_existing :
    M (Node Table) (Option Record × Option Error)
    → Bytes
    → Result (Option Selected)
    → M (Node Table) (Option Record × Option Error)
on_existing again key (err e) = pure (none, some e)
on_existing again key (ok none) = again
on_existing again key (ok (some row)) = do t ← now; pure (read_existing (scan_record key row t))

-- And of the claim. Time passes before the next statement.
unfoldable pub on_claim :
    M (Node Table) (Option Record × Option Error)
    → Bytes
    → Result (Option ℤ)
    → M (Node Table) (Option Record × Option Error)
on_claim again key (err e) = pure (none, some e)
on_claim again key (ok (some ms)) = pure (none, none)
on_claim again key (ok none) = do
  _ ← now
  found ← send (λ s. (q_get key s, s))
  on_existing again key found

-- The loop of `Reserve`, by the number of attempts left.
unfoldable pub reserve_loop : ℕ → Record → M (Node Table) (Option Record × Option Error)
reserve_loop zero rec = pure (none, some kept_losing)
reserve_loop (suc left) rec = do
  t ← now
  claimed ← send (q_reserve rec.key rec.token rec.fingerprint (lease_ttl_millis rec t))
  on_claim (reserve_loop left rec) rec.key claimed

-- `Store.Reserve`
unfoldable pub reserve : Record → M (Node Table) (Option Record × Option Error)
reserve rec = reserve_loop 3 rec

unfoldable pub failure : Bytes → Result (Option Bytes) → Option Error
failure token (err e) = some e
failure token (ok none) = some (sentinel not_found)
failure token (ok (some current)) =
    if not (bytes_eq current token)
    then some (sentinel token_mismatch)
    else some (sentinel not_found)

-- `Store.classifyFailure`
unfoldable pub classify_failure : Bytes → Bytes → M (Node Table) (Option Error)
classify_failure key token = do
  found ← send (λ s. (q_classify key s, s))
  pure (failure token found)

-- What `Complete` and `Release` make of the number of rows that their statement changed.
-- Time passes before the next statement.
unfoldable pub on_affected : Bytes → Bytes → Result ℕ → M (Node Table) (Option Error)
on_affected key token (err e) = pure (some e)
on_affected key token (ok n) =
    if n == 1 then pure none else (do _ ← now; classify_failure key token)

-- `Store.Complete`
unfoldable pub complete : Bytes → Bytes → Bytes → Duration → M (Node Table) (Option Error)
complete key token payload ttl = do
  affected ← send (q_complete key token payload (record_ttl_millis ttl))
  on_affected key token affected

-- `Store.Release`
unfoldable pub release : Bytes → Bytes → M (Node Table) (Option Error)
release key token = do affected ← send (q_release key token); on_affected key token affected

got : Result Record → Result (Option Record)
got (err e) = err (wrapped e)
got (ok rec) = ok (some rec)

on_got : Bytes → Result (Option Selected) → M (Node Table) (Result (Option Record))
unfolding got
on_got key (err e) = pure (err e)
on_got key (ok none) = pure (ok none)
on_got key (ok (some row)) = do t ← now; pure (got (scan_record key row t))

-- `Store.Get`
unfoldable pub get : Bytes → M (Node Table) (Result (Option Record))
unfolding on_got
get key = do found ← send (λ s. (q_get key s, s)); on_got key found

abbrev pub pg_store : Store (Node Table)
pg_store = record { reserve = reserve; complete = complete; release = release; get = get }

unfoldable pub tx_failure : Bytes → Result (Option (ℕ × Bytes)) → Result Bool
tx_failure token (err e) = err e
tx_failure token (ok none) = ok true
tx_failure token (ok (some (state, current))) =
    if state == state_completed && bytes_eq current token then err already_completed else ok true

unfoldable pub on_tx_affected : Bytes → Bytes → Result ℕ → M (Node Table) (Result Bool)
on_tx_affected key token (err e) = pure (err e)
on_tx_affected key token (ok n) =
    if n == 1
    then pure (ok false)
    else (do found ← send (λ s. (q_classify_tx key s, s)); pure (tx_failure token found))

-- `Store.CompleteTx`, on the table as the caller's transaction sees it; the value is `leaseLost`.
unfoldable pub complete_tx : Bytes → Bytes → Bytes → Duration → M (Node Table) (Result Bool)
complete_tx key token payload ttl = do
  affected ← send (q_complete key token payload (record_ttl_millis ttl))
  on_tx_affected key token affected

-- `Store.Sweep`, for a limit that is not negative; the server picks the rows.
unfoldable pub sweep : (ℕ → List Bytes → List Bytes) → ℕ → M (Node Table) (Result ℕ)
sweep pick limit = send (q_sweep pick limit)
