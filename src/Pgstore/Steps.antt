-- ===== src/Pgstore/Steps.antt =====
-- What each statement does to the records of the table, and what it returns.
use idemlease.Base.{
  ℕ, ◌<◌, ◌≡◌, refl, ◌∙◌, inl, inr, Bytes, true, Bool-cases, Option, none, some, arith,
  Option-cases,
}
use mathlib.Core.Path.{subst}
use idemlease.Base.Int.{ℤ}
use idemlease.Base.Dict.{lookup, insert, lookup-insert}
use idemlease.Core.Time.{Time, add, zero_time}
use idemlease.Core.Record.{Record, State, reserved, completed}
use idemlease.Core.Store.{Result}
use idemlease.Core.Spec.{update}
use idemlease.Core.Shared.{bare, dated, IsReservation}
use idemlease.Pgstore.{scan_record, ms_duration, deadline_in}
use idemlease.Pgstore.Rows.{
  Table, Selected, stamp, after_ms, is_live, new_row, put_row, claim_row, q_reserve, selected,
  q_get, state_reserved, state_completed,
}
use idemlease.Pgstore.Slots.{
  due, record_of, slot, slots, IsWritten, AreWritten, is_expired_iff, put_lem,
}

-- `qReserve`: the key was free and is taken, or it was not and nothing changed.
pub data Claims (rec : Record) (n : ℕ) (s : Table) : Option ℤ → Table → Type 0 where
  claimed :
      {s' : Table} (ms : ℤ)
      → slots s rec.key ≡ none
      → stamp s' ≡ stamp s
      → ((j : Bytes) → slots s' j ≡ update (slots s) rec.key (some (dated (after_ms n s) rec)) j)
      → Claims rec n s (some ms) s'
  blocked : (r : Record) → slots s rec.key ≡ some r → Claims rec n s none s

-- `qGet`: the live record, if there is one.
pub data Reads (key : Bytes) (s : Table) : Option Selected → Type 0 where
  absent : Reads key s none
  present :
      (row : Selected)
      → ((t : Time)
          → (x : Record) × (scan_record key row t ≡ Result.ok x)
            × (r : Record) × (slots s key ≡ some r)
            × (bare x ≡ bare r))
      → Reads key s (some row)

put_row-Claims :
    (rec : Record) (ms : ℕ) (s : Table)
    → 0 < ms
    → IsReservation rec
    → slots s rec.key ≡ none
    → AreWritten s
    → let (v, s') = put_row rec.key rec.token rec.fingerprint ms s in
      AreWritten s' × Claims rec ms s v s'
unfolding put_row slot is_live record_of IsWritten
put_row-Claims rec ms s low (new, no_payload) free kept =
    let row = new_row rec.token rec.fingerprint (after_ms ms s) in
    let (kept', left) =
      put_lem rec.key s (insert rec.key row s.rows) (some row) (λ j. rw lookup-insert refl)
        (inl refl) kept in
    let lives : slot rec.key (stamp s) (some row) ≡ some (dated (after_ms ms s) rec) =
      let alive : is_live (stamp s) row ≡ true = ground arith in rw (alive, new, no_payload) refl in
    (
      kept',
      claimed _ free refl (
          subst
            (λ y.
              (j : Bytes)
              → slots (record s { rows = insert rec.key row s.rows }) j
                ≡ update (slots s) rec.key y j)
            lives left),
    )

pub q_reserve-Claims :
    (rec : Record) (ms : ℕ) (s : Table)
    → 0 < ms
    → IsReservation rec
    → AreWritten s
    → let (v, s') = q_reserve rec.key rec.token rec.fingerprint ms s in
      AreWritten s' × Claims rec ms s v s'
unfolding q_reserve claim_row slot
q_reserve-Claims rec ms s low new kept = elim (Option-cases (lookup rec.key s.rows)) [
  | inl free ↦ rw free (put_row-Claims rec ms s low new (rw free refl) kept)
  | inr (r, there) ↦
      let is_not = is_expired_iff (stamp s) r (subst IsWritten there (kept rec.key)) in
      elim (Bool-cases (is_live (stamp s) r)) [
        | inl lives ↦
            rw (there, is_not, lives)
              (kept, blocked (dated (due r) (record_of rec.key r)) (rw (there, lives) refl))
        | inr gone ↦
            rw (there, is_not, gone) (put_row-Claims rec ms s low new (rw (there, gone) refl) kept)
      ]
]

-- A row in a known state is read.
scanned : (key : Bytes) (st : State) (row : Selected) → Record
scanned key st row = record {
  key = key;
  fingerprint = row.fingerprint;
  state = st;
  token = row.token;
  lease_expires_at = zero_time;
  record_expires_at = zero_time;
  payload = row.payload;
}

scan_reserved :
    (key : Bytes) (row : Selected) (t : Time)
    → row.state ≡ state_reserved
    → (x : Record) × (scan_record key row t ≡ Result.ok x) × (bare x ≡ scanned key reserved row)
unfolding scan_record scanned
scan_reserved key row t one = (
  record (scanned key reserved row) { lease_expires_at = add t (ms_duration row.lease_ms) },
  rw one refl,
  refl,
)

scan_completed :
    (key : Bytes) (row : Selected) (t : Time)
    → row.state ≡ state_completed
    → (x : Record) × (scan_record key row t ≡ Result.ok x) × (bare x ≡ scanned key completed row)
unfolding scan_record scanned
scan_completed key row t two = (
  record (scanned key completed row) { record_expires_at = deadline_in row.record_ms t },
  rw two refl,
  refl,
)

pub q_get-Reads : (key : Bytes) (s : Table) → AreWritten s → Reads key s (q_get key s)
unfolding q_get selected slot record_of scanned IsWritten
q_get-Reads key s kept = elim (Option-cases (lookup key s.rows)) [
  | inl free ↦ rw free absent
  | inr (r, there) ↦ elim (Bool-cases (is_live (stamp s) r)) [
    | inr gone ↦ rw (there, gone) absent
    | inl lives ↦ elim (subst IsWritten there (kept key)) [
      | inl one ↦
          rw (there, lives)
            (present _ (λ t.
              let (x, read, same) = scan_reserved key _ t one in
              (
                x,
                read,
                dated (due r) (record_of key r),
                rw (there, lives) refl,
                same ∙ rw one refl,
              )))
      | inr (two, u, e) ↦
          rw (there, lives)
            (present _ (λ t.
              let (x, read, same) = scan_completed key _ t two in
              (
                x,
                read,
                dated (due r) (record_of key r),
                rw (there, lives) refl,
                same ∙ rw two refl,
              )))
    ]
  ]
]
