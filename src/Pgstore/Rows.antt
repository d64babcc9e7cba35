-- ===== src/Pgstore/Rows.antt =====
-- pgstore/pgstore.go: the records table and the statements, each at one instant of the server's clock,
-- which `now()` reads in microseconds. NULL is the empty byte sequence, as nil is to the client;
-- `created_at`, which no statement reads, is left out.
use idemlease.Base.{
  ℕ, ◌+◌, ◌-◌, ◌*◌, ◌/◌, ltb, leb, ◌==◌, Bytes, bytes_eq, if◌then◌else◌, Bool, false, ◌&&◌, ◌||◌,
  Option, none, some, [],
}
use idemlease.Base.Dict.{Dict, lookup, insert, erase}
use idemlease.Base.Int.{ℤ, pos, negsuc}
use idemlease.Core.Time.{Time}

abbrev pub state_reserved : ℕ
state_reserved = 1

abbrev pub state_completed : ℕ
state_completed = 2

-- A row without its key.
pub record Row : Type 0 where
  pub state : ℕ
  pub token : Bytes
  pub fingerprint : Bytes
  pub payload : Bytes
  pub lease_expires_at : ℕ
  pub record_expires_at : Option ℕ

-- The rows by their primary key, and the server's clock in nanoseconds.
pub record Table : Type 0 where
  pub rows : Dict Row
  pub time : Time

-- `now()`
abbrev pub stamp : Table → ℕ
stamp s = s.time / 1000

-- `now() + interval '1 millisecond' * ms`
abbrev pub after_ms : ℕ → Table → ℕ
after_ms ms s = stamp s + ms * 1000

-- `column > now()` and `column <= now()`, which are not true of NULL.
unfoldable pub is_later : Option ℕ → ℕ → Bool
is_later none t = false
is_later (some u) t = ltb t u

unfoldable pub is_past : Option ℕ → ℕ → Bool
is_past none t = false
is_past (some u) t = leb u t

-- The conditions `live` and `expired` of `New`.
unfoldable pub is_live : ℕ → Row → Bool
is_live t r =
    (r.state == state_reserved && ltb t r.lease_expires_at)
    || (r.state == state_completed && is_later r.record_expires_at t)

unfoldable pub is_expired : ℕ → Row → Bool
is_expired t r =
    (r.state == state_reserved && leb r.lease_expires_at t)
    || (r.state == state_completed && is_past r.record_expires_at t)

negated : ℕ → ℤ
negated ℕ.zero = pos 0
negated (ℕ.suc n) = negsuc n

-- `(extract(epoch from (u - now())) * 1000)::bigint`, which rounds halves away from 0.
unfoldable pub ms_left : ℕ → ℕ → ℤ
unfolding negated
ms_left u t = if leb t u then pos ((u - t + 500) / 1000) else negated ((t - u + 500) / 1000)

abbrev ms_left_or_null : Option ℕ → ℕ → Option ℤ
ms_left_or_null none t = none
ms_left_or_null (some u) t = some (ms_left u t)

-- The columns that a record is read from.
pub record Selected : Type 0 where
  pub state : ℕ
  pub token : Bytes
  pub fingerprint : Bytes
  pub payload : Bytes
  pub lease_ms : ℤ
  pub record_ms : Option ℤ

abbrev pub new_row : Bytes → Bytes → ℕ → Row
new_row token fingerprint lease = record {
  state = state_reserved;
  token = token;
  fingerprint = fingerprint;
  payload = [];
  lease_expires_at = lease;
  record_expires_at = none;
}

unfoldable pub put_row : Bytes → Bytes → Bytes → ℕ → Table → Option ℤ × Table
put_row key token fingerprint ms s = (
  some (ms_left (after_ms ms s) (stamp s)),
  record s { rows = insert key (new_row token fingerprint (after_ms ms s)) s.rows },
)

-- `ON CONFLICT (key) DO UPDATE ... WHERE` expired; no row comes back where nothing is written.
unfoldable pub claim_row : Option Row → Bytes → Bytes → Bytes → ℕ → Table → Option ℤ × Table
unfolding put_row
claim_row none key token fingerprint ms s = put_row key token fingerprint ms s
claim_row (some r) key token fingerprint ms s =
    if is_expired (stamp s) r then put_row key token fingerprint ms s else (none, s)

-- `qReserve`
unfoldable pub q_reserve : Bytes → Bytes → Bytes → ℕ → Table → Option ℤ × Table
unfolding claim_row
q_reserve key token fingerprint ms s = claim_row (lookup key s.rows) key token fingerprint ms s

unfoldable pub selected : Option Row → ℕ → Option Selected
selected none t = none
selected (some r) t =
    if is_live t r
    then some (record {
      state = r.state;
      token = r.token;
      fingerprint = r.fingerprint;
      payload = r.payload;
      lease_ms = ms_left r.lease_expires_at t;
      record_ms = ms_left_or_null r.record_expires_at t;
    })
    else none

-- `qReserveExists` and `qGet`, which are the same
unfoldable pub q_get : Bytes → Table → Option Selected
unfolding selected
q_get key s = selected (lookup key s.rows) (stamp s)

-- `WHERE key = $1 AND token = $2 AND state = reserved AND lease_expires_at > now()`
unfoldable pub is_held : Bytes → ℕ → Row → Bool
is_held token t r =
    bytes_eq r.token token && (r.state == state_reserved && ltb t r.lease_expires_at)

unfoldable pub update_row : Option Row → Bytes → Bytes → Bytes → ℕ → Table → ℕ × Table
update_row none key token payload ms s = (0, s)
update_row (some r) key token payload ms s =
    if is_held token (stamp s) r
    then (
      1,
      record s {
        rows =
            insert key
              (record r {
                state = state_completed;
                payload = payload;
                record_expires_at = some (after_ms ms s);
              })
              s.rows;
      },
    )
    else (0, s)

-- `qComplete`, with the number of rows affected
unfoldable pub q_complete : Bytes → Bytes → Bytes → ℕ → Table → ℕ × Table
unfolding update_row
q_complete key token payload ms s = update_row (lookup key s.rows) key token payload ms s

unfoldable pub delete_row : Option Row → Bytes → Bytes → Table → ℕ × Table
delete_row none key token s = (0, s)
delete_row (some r) key token s =
    if is_held token (stamp s) r then (1, record s { rows = erase key s.rows }) else (0, s)

-- `qRelease`
unfoldable pub q_release : Bytes → Bytes → Table → ℕ × Table
unfolding delete_row
q_release key token s = delete_row (lookup key s.rows) key token s

unfoldable pub holder : Option Row → ℕ → Option Bytes
holder none t = none
holder (some r) t =
    if r.state == state_reserved && ltb t r.lease_expires_at then some r.token else none

-- `qClassify`
unfoldable pub q_classify : Bytes → Table → Option Bytes
unfolding holder
q_classify key s = holder (lookup key s.rows) (stamp s)

unfoldable pub live_holder : Option Row → ℕ → Option (ℕ × Bytes)
live_holder none t = none
live_holder (some r) t = if is_live t r then some (r.state, r.token) else none

-- `qClassifyTx`
unfoldable pub q_classify_tx : Bytes → Table → Option (ℕ × Bytes)
unfolding live_holder
q_classify_tx key s = live_holder (lookup key s.rows) (stamp s)
