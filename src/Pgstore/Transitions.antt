-- ===== src/Pgstore/Transitions.antt =====
-- What the statements of `Complete` and `Release` do to the records of the table.
use idemlease.Base.{
  ℕ, ◌<◌, ltb, ◌≡◌, refl, ◌⊎◌, inl, inr, Bytes, bytes_eq, true, false, Bool-cases, Option, none,
  some, arith, Option-cases,
}
use mathlib.Core.Path.{subst}
use idemlease.Base.Dict.{lookup, insert, erase, lookup-insert, lookup-erase}
use idemlease.Core.Record.{Record}
use idemlease.Core.Store.{Sentinel, not_found}
use idemlease.Core.Spec.{update, holds, completed_record}
use idemlease.Core.Shared.{completed_now}
use idemlease.Pgstore.Rows.{
  Row, Table, stamp, after_ms, is_live, is_later, is_held, update_row, q_complete, delete_row,
  q_release, state_completed,
}
use idemlease.Pgstore.Slots.{record_of, slot, slots, IsWritten, AreWritten, put_lem}

-- A compare-and-set: one row changed, or none where the lease is not held.
pub data Affects (key token : Bytes) (entry : Option Record) (s : Table) : ℕ → Table → Type 0 where
  changed :
      {s' : Table}
      → holds token (slots s key) ≡ none
      → stamp s' ≡ stamp s
      → ((j : Bytes) → slots s' j ≡ update (slots s) key entry j)
      → Affects key token entry s 1 s'
  unchanged : (e : Sentinel) → holds token (slots s key) ≡ some e → Affects key token entry s 0 s

-- The condition on the row is the compare-and-set on the record.
holds_held :
    (key token : Bytes) (t : ℕ) (r : Row)
    → IsWritten (some r)
    → ((is_held token t r ≡ true)
        × (is_live t r ≡ true)
        × (holds token (slot key t (some r)) ≡ none))
      ⊎ ((is_held token t r ≡ false)
          × (e : Sentinel) × (holds token (slot key t (some r)) ≡ some e))
unfolding IsWritten is_held slot is_live record_of holds
holds_held key token t r (inl one) = elim (Bool-cases (bytes_eq r.token token)) [
  | inl own ↦ elim (Bool-cases (ltb t r.lease_expires_at)) [
    | inl lives ↦ inl (rw (one, lives, own) (refl, refl, refl))
    | inr gone ↦ inr (rw (one, gone, own) (refl, _, refl))
  ]
  | inr other ↦ elim (Bool-cases (ltb t r.lease_expires_at)) [
    | inl lives ↦ inr (rw (one, lives, other) (refl, _, refl))
    | inr gone ↦ inr (rw (one, gone, other) (refl, _, refl))
  ]
]
holds_held key token t r (inr (two, u, e)) = elim (Bool-cases (bytes_eq r.token token)) [
  | inl own ↦ elim (Bool-cases (is_later r.record_expires_at t)) [
    | inl lives ↦ inr (rw (two, lives, own) (refl, _, refl))
    | inr gone ↦ inr (rw (two, gone, own) (refl, _, refl))
  ]
  | inr other ↦ elim (Bool-cases (is_later r.record_expires_at t)) [
    | inl lives ↦ inr (rw (two, lives, other) (refl, _, refl))
    | inr gone ↦ inr (rw (two, gone, other) (refl, _, refl))
  ]
]

row-IsWritten :
    (row : Row) (u : ℕ)
    → row.state ≡ state_completed
    → row.record_expires_at ≡ some u
    → IsWritten (some row)
unfolding IsWritten
row-IsWritten row u two e = inr (two, u, e)

-- Completing a live row completes its record.
completed_slot :
    (key payload : Bytes) (ms : ℕ) (s : Table) (r : Row)
    → 0 < ms
    → is_live (stamp s) r ≡ true
    → slot key (stamp s) (
        some (record r {
          state = state_completed;
          payload = payload;
          record_expires_at = some (after_ms ms s);
        }))
      ≡ completed_now payload (after_ms ms s) (slot key (stamp s) (some r))
unfolding slot completed_now completed_record record_of is_live is_later
completed_slot key payload ms s r low lives =
    let later : ltb (stamp s) (after_ms ms s) ≡ true = ground arith in rw (lives, later) refl

pub q_complete-Affects :
    (key token payload : Bytes) (ms : ℕ) (s : Table)
    → 0 < ms
    → AreWritten s
    → let (n, s') = q_complete key token payload ms s in
      AreWritten s' × Affects key token (completed_now payload (after_ms ms s) (slots s key)) s n s'
unfolding q_complete update_row slot holds
q_complete-Affects key token payload ms s low kept = elim (Option-cases (lookup key s.rows)) [
  | inl free ↦ rw free (kept, unchanged not_found (rw free refl))
  | inr (r, there) ↦ elim (holds_held key token (stamp s) r (subst IsWritten there (kept key))) [
    | inr (lost, e, refuses) ↦ rw (there, lost) (kept, unchanged e (rw there refuses))
    | inl (held, lives, own) ↦
        let row : Row = record r {
          state = state_completed;
          payload = payload;
          record_expires_at = some (after_ms ms s);
        } in
        let (kept', left) =
          put_lem key s (insert key row s.rows) (some row) (λ j. rw lookup-insert refl)
            (row-IsWritten row _ refl refl) kept in
        rw (there, held)
          (
            kept',
            changed (rw there own) refl (
                subst
                  (λ y.
                    (j : Bytes)
                    → slots (record s { rows = insert key row s.rows }) j
                      ≡ update (slots s) key y j)
                  (completed_slot key payload ms s r low lives) left),
          )
  ]
]

pub q_release-Affects :
    (key token : Bytes) (s : Table)
    → AreWritten s
    → let (n, s') = q_release key token s in AreWritten s' × Affects key token none s n s'
unfolding q_release delete_row slot IsWritten holds
q_release-Affects key token s kept = elim (Option-cases (lookup key s.rows)) [
  | inl free ↦ rw free (kept, unchanged not_found (rw free refl))
  | inr (r, there) ↦ elim (holds_held key token (stamp s) r (subst IsWritten there (kept key))) [
    | inr (lost, e, refuses) ↦ rw (there, lost) (kept, unchanged e (rw there refuses))
    | inl (held, lives, own) ↦
        let (kept', left) =
          put_lem key s (erase key s.rows) none (λ j. rw lookup-erase refl) tt kept in
        rw (there, held) (kept', changed (rw there own) refl left)
  ]
]
