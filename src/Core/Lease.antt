-- ===== src/Core/Lease.antt =====
-- idemlease.go: `Begin` and `Finish`, over any store and runtime.
use idemlease.Base.{ℕ, zero, suc, ◌+◌, ◌-◌, ◌/◌, ◌%◌, Bytes, bytes_eq, Bool, true, false, ltb}
use idemlease.Base.{if◌then◌else◌, Option, none, some, List, [], ◌∷◌, not, ◌||◌}
use idemlease.Base.Int.{ℤ, pos, negsuc, is_pos}
use idemlease.Base.Monad.{M, pure, ◌>>=◌, ◌>>◌}
use idemlease.Core.Time.{Time, Duration, add, sub, second, zero_time}
use idemlease.Core.Record.{State, reserved, completed, invalid, Record, expired}
use idemlease.Core.Store.{
  Error, Result, ok, err, Store, Runtime, is, already_exists, token_mismatch, not_found,
  missing_existing, expired_existing, invalid_state, wrapped,
}
use idemlease.Core.Store
mod Limits
pub mod Linear
pub mod Answers
pub mod Finishing
pub mod Exclusive
pub mod Cycle
pub mod Faults
pub use Limits.{Options, default_lease_ttl, default_record_ttl}
unfoldable pub use Limits.{lease_ttl, record_ttl, effective}

pub data Action : Type 0 where
  proceed replay reject_in_flight reject_fingerprint_mismatch : Action

pub record Outcome : Type 0 where
  pub action : Action
  pub token : Bytes
  pub payload : Bytes
  pub retry_after : Duration

-- A `Decision` is an int: 0 is Persist, 1 is Discard, and any other value is invalid.
pub data Decision : Type 0 where
  persist discard : Decision
  invalid_decision : ℕ → Decision

-- `Outcome{Action: a}`
abbrev pub outcome : Action → Outcome
outcome a = record { action = a; token = []; payload = []; retry_after = pos 0 }

-- `encoding/hex`: two lower-case digits for each byte.
hex_digit : ℕ → ℕ
hex_digit d = if ltb d 10 then d + b'0' else d - 10 + b'a'

unfoldable pub hex_encode : Bytes → Bytes
unfolding hex_digit
hex_encode [] = []
hex_encode (b ∷ bs) = hex_digit (b / 16) ∷ hex_digit (b % 16) ∷ hex_encode bs

-- The answer to an existing record that is not expired, by its state.
unfoldable pub answer : State → Record → Bytes → Time → Result Outcome
answer reserved r fingerprint now =
    ok (record (outcome reject_in_flight) { retry_after = sub r.lease_expires_at now })
answer completed r fingerprint now =
    if bytes_eq r.fingerprint fingerprint
    then ok (record (outcome replay) { payload = r.payload })
    else ok (outcome reject_fingerprint_mismatch)
answer (invalid n) r fingerprint now = err (invalid_state n)

-- The record that `Begin` hands to `Reserve`.
abbrev pub reservation : Bytes → Bytes → Bytes → Time → Record
reservation key fingerprint token lease = record {
  key = key;
  fingerprint = fingerprint;
  state = reserved;
  token = token;
  lease_expires_at = lease;
  record_expires_at = zero_time;
  payload = [];
}

module _ {W : Type 0} (s : Store W) (rt : Runtime W) where
  unfoldable pub new_token : M W (Result Bytes)
  new_token = do
    drawn ← rt.rand
    pure (elim drawn [ ok b ↦ ok (hex_encode b) | err e ↦ err (wrapped e) ])

  -- What a round does with the existing record; `again` is what `continue` or, on the last
  -- attempt, the error does.
  unfoldable pub examine : M W (Result Outcome) → Bytes → Record → M W (Result Outcome)
  examine again fingerprint r = do
    now ← rt.now
    if expired r now then again else pure (answer r.state r fingerprint now)

  -- What a round does with the reply of `Reserve`.
  unfoldable pub react :
      M W (Result Outcome) → Bytes → Bytes → Option Record × Option Error → M W (Result Outcome)
  react again fingerprint token (existing, none) =
      pure (ok (record (outcome proceed) { token = token }))
  react again fingerprint token (none, some e) =
      if is e already_exists then pure (err missing_existing) else pure (err e)
  react again fingerprint token (some r, some e) =
      if is e already_exists then examine again fingerprint r else pure (err e)

  -- One round of the loop.
  unfoldable pub attempt :
      M W (Result Outcome) → Bytes → Bytes → Options → Bytes → M W (Result Outcome)
  attempt again key fingerprint o token = do
    t ← rt.now
    reply ← s.reserve (reservation key fingerprint token (add t (lease_ttl o)))
    react again fingerprint token reply

  -- The loop, by the number of attempts left after this one.
  unfoldable pub begin_loop : ℕ → Bytes → Bytes → Options → Bytes → M W (Result Outcome)
  begin_loop zero key fingerprint o token =
      attempt (pure (err expired_existing)) key fingerprint o token
  begin_loop (suc left) key fingerprint o token =
      attempt (begin_loop left key fingerprint o token) key fingerprint o token

  -- `Begin`, with `maxAttempts` 3.
  unfoldable pub begin : Bytes → Bytes → Options → M W (Result Outcome)
  begin key fingerprint o = do
    drawn ← new_token
    elim drawn [ err e ↦ pure (err e) | ok token ↦ begin_loop 2 key fingerprint o token ]

-- The error of a trailing transition, as the lease being lost or as an error.
unfoldable pub normalize : Option Error → Result Bool
normalize none = ok false
normalize (some e) = if is e token_mismatch || is e not_found then ok true else err e

-- `Finish`; the value is `leaseLost`.
unfoldable pub finish :
    {W : Type 0} → Store W → Bytes → Bytes → Decision → Bytes → Options → M W (Result Bool)
unfolding normalize
finish s key token persist payload o = do
  e ← s.complete key token payload (record_ttl o)
  pure (normalize e)
finish s key token discard payload o = do e ← s.release key token; pure (normalize e)
finish s key token (invalid_decision d) payload o = pure (err (Store.invalid_decision d))
