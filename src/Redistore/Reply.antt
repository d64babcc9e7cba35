-- ===== src/Redistore/Reply.antt =====
-- redistore/redistore.go: what the client makes of a script's reply.
use idemlease.Base.{
  ℕ, ◌+◌, ◌-◌, ◌*◌, ◌/◌, suc, ◌^◌, Bytes, bytes_eq, if◌then◌else◌, Option, none, some, [],
}
use idemlease.Base.Dict.{Dict, lookup, insert}
use idemlease.Base.Decimal.{to_int64, parse_int}
use idemlease.Base.Int.{ℤ, pos, negsuc}
use idemlease.Base.Text.{codes}
use idemlease.Core.Time.{Time, add, sub, zero_time, millisecond, at_least_one_ms}
use idemlease.Core.Record.{State, reserved, completed, invalid, Record}
use idemlease.Core.Store.{Error, Result, ok, err, other, sentinel, token_mismatch, not_found}
use idemlease.Redistore.Server.{Value, Values, text, number, array, end, item}
use idemlease.Redistore.Scripts.{state_reserved, state_completed}

-- The errors that the package makes itself.
abbrev pub malformed_reply : Error
malformed_reply = other 201

abbrev pub corrupted_record : Error
corrupted_record = other 202

abbrev pub record_without_ttl : Error
record_without_ttl = other 203

abbrev pub unexpected_result : Error
unexpected_result = other 204

-- Milliseconds from the zero time to 1970.
abbrev epoch_ms : ℕ
epoch_ms = 62135596800000

-- `t.UnixMilli()`, an int64.
abbrev pub unix_milli : Time → ℤ
unix_milli t = to_int64 (t / millisecond + (2 ^ 64 - epoch_ms))

-- `time.UnixMilli(ms)`
abbrev pub from_unix_milli : ℤ → Time
from_unix_milli (pos n) = (epoch_ms + n) * millisecond
from_unix_milli (negsuc n) = (epoch_ms - suc n) * millisecond

-- `pxUntil`, with the reading of the clock that `time.Until` takes.
abbrev pub px_until : Time → Time → ℕ
px_until deadline now = at_least_one_ms (sub deadline now)

-- `name, _ := v.(string)`
abbrev pub string_of : Value → Bytes
string_of (text s) = s
string_of _ = []

-- The loop that reads the fields, two values at a time, into a map.
unfoldable pub read_fields : Values → Dict Bytes → Dict Bytes
read_fields end fields = fields
read_fields (item name end) fields = fields
read_fields (item name (item v more)) fields =
    read_fields more (insert (string_of name) (string_of v) fields)

text_or_empty : Option Bytes → Bytes
text_or_empty none = []
text_or_empty (some v) = v

-- `fields[name]`
unfoldable pub field : Bytes → Dict Bytes → Bytes
unfolding text_or_empty
field name fields = text_or_empty (lookup name fields)

-- A deadline in a field: the zero time where there is none.
parsed_deadline : Option ℤ → Result Time
parsed_deadline none = err corrupted_record
parsed_deadline (some ms) = ok (from_unix_milli ms)

unfoldable pub deadline_field : Option Bytes → Result Time
unfolding parsed_deadline
deadline_field none = ok zero_time
deadline_field (some v) = parsed_deadline (parse_int v)

with_deadlines : Bytes → State → Dict Bytes → Result Time → Result Time → Result Record
with_deadlines key st fields (err e) record_deadline = err e
with_deadlines key st fields (ok lease) (err e) = err e
with_deadlines key st fields (ok lease) (ok until) = ok (record {
  key = key;
  fingerprint = field (codes "fp") fields;
  state = st;
  token = field (codes "token") fields;
  lease_expires_at = lease;
  record_expires_at = until;
  payload = field (codes "payload") fields;
})

-- `recordFromFields`
unfoldable pub record_from_fields : Bytes → Dict Bytes → Result Record
unfolding with_deadlines
record_from_fields key fields =
    let lease = deadline_field (lookup (codes "lease_exp_ms") fields) in
    let until = deadline_field (lookup (codes "rec_exp_ms") fields) in
    let st = field (codes "state") fields in
    if bytes_eq st state_reserved
    then with_deadlines key reserved fields lease until
    else if bytes_eq st state_completed
    then with_deadlines key completed fields lease until
    else err corrupted_record

-- The active deadline is the server's, counted from the client's clock.
unfoldable pub set_deadline : State → Time → Record → Record
set_deadline reserved deadline rec = record rec { lease_expires_at = deadline }
set_deadline completed deadline rec = record rec { record_expires_at = deadline }
set_deadline (invalid n) deadline rec = rec

-- The end of `recordFromReply` (`time.Duration` is an int64), where the record's fields have been read; `now` is the clock then.
unfoldable pub with_ttl : ℤ → Time → Result Record → Result Record
unfolding set_deadline
with_ttl ttl now (err e) = err e
with_ttl (negsuc n) now (ok rec) = err record_without_ttl
with_ttl (pos n) now (ok rec) =
    ok (set_deadline rec.state (add now (to_int64 (n * millisecond))) rec)

-- `recordFromReply`, on the elements of the reply.
unfoldable pub record_from_reply : Bytes → Values → Time → Result Record
unfolding with_ttl
record_from_reply key (item (number ttl) (item (array fields) end)) now =
    with_ttl ttl now (record_from_fields key (read_fields fields []))
record_from_reply key reply now = err malformed_reply

status_error : Bytes → Option Error
status_error status =
    if bytes_eq status (codes "OK")
    then none
    else if bytes_eq status (codes "NOT_FOUND")
    then some (sentinel not_found)
    else if bytes_eq status (codes "TOKEN_MISMATCH")
    then some (sentinel token_mismatch)
    else some unexpected_result

-- `statusToErr`
unfoldable pub status_to_err : Value → Option Error
unfolding status_error
status_to_err v = status_error (string_of v)
