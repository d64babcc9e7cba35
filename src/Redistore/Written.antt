-- ===== src/Redistore/Written.antt =====
-- What the store writes into a hash, and that it reads the same record back.
use idemlease.Base.{◌≡◌, ◌⊎◌, inl, inr, refl, Bytes, bytes_eq, if◌then◌else◌, some, [], ◌∷◌}
use idemlease.Base.Dict.{Dict, lookup, insert, lookup-insert}
use idemlease.Base.Decimal.{format_int, parse_int-format_int, to_int64-IsInt64}
use idemlease.Base.Text.{codes}
use idemlease.Core.Time.{Time, zero_time}
use idemlease.Core.Record.{State, reserved, completed, invalid, Record}
use idemlease.Core.Store.{ok}
use idemlease.Core.Shared.{bare}
use idemlease.Core.Spec.{completed_record}
use idemlease.Redistore.Server.{put_all}
use idemlease.Redistore.Scripts.{state_reserved, state_completed, flat}
use idemlease.Redistore.Reply.{
  read_fields, field, deadline_field, record_from_fields, set_deadline, unix_milli, from_unix_milli,
}

-- The fields that a record of this store has.
pub record IsWritten (d : Dict Bytes) : Type 0 where
  pub state_known :
      (lookup (codes "state") d ≡ some state_reserved)
      ⊎ (lookup (codes "state") d ≡ some state_completed)
  pub token_there : (t : Bytes) × (lookup (codes "token") d ≡ some t)
  pub lease_read : (t : Time) × (deadline_field (lookup (codes "lease_exp_ms") d) ≡ ok t)
  pub until_read : (t : Time) × (deadline_field (lookup (codes "rec_exp_ms") d) ≡ ok t)

abbrev pub state_of : Bytes → State
state_of st = if bytes_eq st state_reserved then reserved else completed

-- The record in the fields, without its deadlines.
unfoldable pub record_of : Bytes → Dict Bytes → Record
unfolding field
record_of key d = record {
  key = key;
  fingerprint = field (codes "fp") d;
  state = state_of (field (codes "state") d);
  token = field (codes "token") d;
  lease_expires_at = zero_time;
  record_expires_at = zero_time;
  payload = field (codes "payload") d;
}

-- Maps that answer alike.
abbrev pub SameFields : Dict Bytes → Dict Bytes → Type 0
SameFields d d' = (name : Bytes) → lookup name d ≡ lookup name d'

pub record_from_fields-written :
    (key : Bytes) (d d' : Dict Bytes)
    → SameFields d' d
    → IsWritten d
    → (x : Record) × (record_from_fields key d' ≡ ok x) × (bare x ≡ record_of key d)
unfolding record_from_fields field record_of bytes_eq
record_from_fields-written key d d' same w =
    let (lease, lease_ok) = w.lease_read in
    let (until, until_ok) = w.until_read in
    let fp = same (codes "fp") in
    let st = same (codes "state") in
    let tok = same (codes "token") in
    let le = same (codes "lease_exp_ms") in
    let re = same (codes "rec_exp_ms") in
    let pl = same (codes "payload") in
    let x = record (record_of key d) { lease_expires_at = lease; record_expires_at = until } in
    elim w.state_known [
      | inl one ↦ (x, rw (st, one, le, re, lease_ok, until_ok, fp, tok, pl), refl)
      | inr two ↦ (x, rw (st, two, le, re, lease_ok, until_ok, fp, tok, pl), refl)
    ]

pub bare-set_deadline : (st : State) (t : Time) (x : Record) → bare (set_deadline st t x) ≡ bare x
unfolding set_deadline
bare-set_deadline reserved t x = refl
bare-set_deadline completed t x = refl
bare-set_deadline (invalid n) t x = refl

pub read_fields-flat : (d acc : Dict Bytes) → read_fields (flat d) acc ≡ put_all d acc
unfolding read_fields flat
read_fields-flat [] acc = refl
read_fields-flat ((name, v) ∷ d) acc = read_fields-flat d (insert name v acc)

deadline_written :
    (t : Time) → (u : Time) × (deadline_field (some (format_int (unix_milli t))) ≡ ok u)
unfolding deadline_field
deadline_written t =
    (from_unix_milli (unix_milli t), rw (parse_int-format_int (unix_milli t) (to_int64-IsInt64 _)))

-- The fields of a new reservation.
abbrev pub reserved_fields : Bytes → Bytes → Time → Dict Bytes
reserved_fields token fp lease =
    (codes "state", state_reserved)
    ∷ (codes "token", token)
    ∷ (codes "fp", fp)
    ∷ (codes "lease_exp_ms", format_int (unix_milli lease))
    ∷ []

pub reserved-IsWritten :
    (token fp : Bytes) (lease : Time) → IsWritten (put_all (reserved_fields token fp lease) [])
unfolding lookup insert bytes_eq deadline_field
reserved-IsWritten token fp lease = record {
  state_known = inl refl;
  token_there = (token, refl);
  lease_read = deadline_written lease;
  until_read = (zero_time, refl);
}

pub record_of-reserved :
    (key token fp : Bytes) (lease : Time)
    → record_of key (put_all (reserved_fields token fp lease) []) ≡ record {
      key = key;
      fingerprint = fp;
      state = reserved;
      token = token;
      lease_expires_at = zero_time;
      record_expires_at = zero_time;
      payload = [];
    }
unfolding record_of field lookup insert bytes_eq
record_of-reserved key token fp lease = refl

-- The fields that completing writes over those.
abbrev pub completed_fields : Bytes → Time → Dict Bytes
completed_fields payload until =
    (codes "state", state_completed)
    ∷ (codes "payload", payload)
    ∷ (codes "rec_exp_ms", format_int (unix_milli until))
    ∷ []

pub completed-IsWritten :
    (d : Dict Bytes) (payload : Bytes) (until : Time)
    → IsWritten d
    → IsWritten (put_all (completed_fields payload until) d)
unfolding bytes_eq
completed-IsWritten d payload until w = record {
  state_known = inr (rw (lookup-insert, lookup-insert, lookup-insert));
  token_there = (w.token_there.0, rw (lookup-insert, lookup-insert, lookup-insert) w.token_there.1);
  lease_read = (w.lease_read.0, rw (lookup-insert, lookup-insert, lookup-insert) w.lease_read.1);
  until_read = let (t, e) = deadline_written until in (t, rw lookup-insert e);
}

pub record_of-completed :
    (key : Bytes) (d : Dict Bytes) (payload : Bytes) (until : Time)
    → record_of key (put_all (completed_fields payload until) d)
      ≡ completed_record (record_of key d) payload zero_time
unfolding record_of field completed_record bytes_eq
record_of-completed key d payload until = simp lookup-insert
