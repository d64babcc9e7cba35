-- ===== src/Redistore.antt =====
-- redistore/redistore.go: the store in Redis, as a client sees it. The server is a parameter.
pub mod Server
pub mod Scripts
pub mod Reply
pub mod Written
pub mod Slots
pub mod Writes
pub mod Steps
pub mod Transitions
pub mod Atomic
pub mod Example
mod Tests
use idemlease.Base.{ℕ, ◌+◌, Bytes, ◌++◌, Option, none, some, List, [], ◌∷◌}
use idemlease.Base.Decimal.{format_int}
use idemlease.Base.Int.{pos}
use idemlease.Base.Monad.{M, pure, ◌>>=◌}
use idemlease.Base.Text.{codes}
use idemlease.Core.Time.{at_least_one_ms, Time, Duration, add}
use idemlease.Core.Record.{Record}
use idemlease.Core.Node.{Node, send}
use idemlease.Core.Node
use idemlease.Core.Store.{Error, Result, ok, err, Store, sentinel, already_exists, other, wrapped}
use Server.{Redis, Value, text, number, nothing, array}
use Scripts.{state_reserved, reserve_script, get_script, complete_script, release_script}
use Reply.{unix_milli, px_until, record_from_reply, status_to_err, unexpected_result}

abbrev redis_nil : Error
redis_nil = other 200

-- `Store.redisKey`
abbrev pub redis_key : Bytes → Bytes → Bytes
redis_key prefix key = prefix ++ key

abbrev pub default_prefix : Bytes
default_prefix = codes "idemlease:"

module _ {K : Type 0} (r : Redis K) (prefix : Bytes) where
  -- `time.Now`
  abbrev pub now : M (Node K) Time
  now = Node.now r.pass

  unfoldable pub existing : Result Record → Option Record × Option Error
  existing (err e) = (none, some e)
  existing (ok rec) = (some rec, some (sentinel already_exists))

  -- The switch on the type of the script's result.
  unfoldable pub reserved_reply : Bytes → Result Value → M (Node K) (Option Record × Option Error)
  unfolding existing
  reserved_reply key (err e) = pure (none, some e)
  reserved_reply key (ok (text v)) = pure (none, none)
  reserved_reply key (ok (array vs)) = do t ← now; pure (existing (record_from_reply key vs t))
  reserved_reply key (ok (number n)) = pure (none, some unexpected_result)
  reserved_reply key (ok nothing) = pure (none, some (wrapped redis_nil))

  -- `Store.Reserve`
  pub reserve : Record → M (Node K) (Option Record × Option Error)
  reserve rec = do
    t ← now
    reply ← send (
        reserve_script r (redis_key prefix rec.key) state_reserved rec.token rec.fingerprint
          (format_int (unix_milli rec.lease_expires_at))
          (format_int (pos (px_until rec.lease_expires_at t))))
    reserved_reply rec.key reply

  unfoldable pub status_of_reply : Result Value → Option Error
  status_of_reply (err e) = some e
  status_of_reply (ok nothing) = some (wrapped redis_nil)
  status_of_reply (ok v) = status_to_err v

  -- `Store.Complete`
  pub complete : Bytes → Bytes → Bytes → Duration → M (Node K) (Option Error)
  unfolding status_of_reply
  complete key token payload ttl = do
    t ← now
    reply ← send (
        complete_script r (redis_key prefix key) token payload (format_int (unix_milli (add t ttl)))
          (format_int (pos (at_least_one_ms ttl))))
    pure (status_of_reply reply)

  -- `Store.Release`
  pub release : Bytes → Bytes → M (Node K) (Option Error)
  unfolding status_of_reply
  release key token = do
    reply ← send (release_script r (redis_key prefix key) token)
    pure (status_of_reply reply)

  found : Result Record → Result (Option Record)
  found (err e) = err e
  found (ok rec) = ok (some rec)

  got_reply : Bytes → Result Value → M (Node K) (Result (Option Record))
  unfolding found
  got_reply key (err e) = pure (err e)
  got_reply key (ok nothing) = pure (ok none)
  got_reply key (ok (array vs)) = do t ← now; pure (found (record_from_reply key vs t))
  got_reply key (ok v) = pure (err unexpected_result)

  -- `Store.Get`
  pub get : Bytes → M (Node K) (Result (Option Record))
  unfolding got_reply
  get key = do reply ← send (λ s. (get_script r (redis_key prefix key) s, s)); got_reply key reply

  abbrev pub store : Store (Node K)
  store = record { reserve = reserve; complete = complete; release = release; get = get }
