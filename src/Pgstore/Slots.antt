-- ===== src/Pgstore/Slots.antt =====
-- The records that the rows stand for: the live ones, each with its deadline.
use idemlease.Base.{
  ℕ, ◌≤◌, ◌==◌, ◌≡◌, refl, ◌⊎◌, inl, inr, Bytes, bytes_eq, if◌then◌else◌, true, false, Bool-cases,
  Option, none, some, arith,
}
use idemlease.Base.Dict.{Dict, lookup}
use idemlease.Core.Time.{zero_time}
use idemlease.Core.Record.{Record, reserved, completed}
use idemlease.Core.Spec.{Records, update}
use idemlease.Core.Shared.{View, dated, IsOver, Fades, Fades-refl}
use idemlease.Core.Shared.Slots.{written-update}
use idemlease.Core.Node.{Node}
use idemlease.Core.Node
use idemlease.Pgstore.{pass, now}
use idemlease.Pgstore.Rows.{
  Row, Table, stamp, is_live, is_later, is_expired, is_past, state_reserved, state_completed,
}

-- The record in a row, without its deadlines.
unfoldable pub record_of : Bytes → Row → Record
record_of key r = record {
  key = key;
  fingerprint = r.fingerprint;
  state = if r.state == state_reserved then reserved else completed;
  token = r.token;
  lease_expires_at = zero_time;
  record_expires_at = zero_time;
  payload = r.payload;
}

-- The deadline in force, by the row's state.
abbrev until : Option ℕ → ℕ
until none = 0
until (some u) = u

abbrev pub due : Row → ℕ
due r = if r.state == state_reserved then r.lease_expires_at else until r.record_expires_at

unfoldable pub slot : Bytes → ℕ → Option Row → Option Record
slot key t none = none
slot key t (some r) = if is_live t r then some (dated (due r) (record_of key r)) else none

abbrev pub slots : Table → Records
slots s key = slot key (stamp s) (lookup key s.rows)

abbrev pub view : Table → View
view s = record { time = stamp s; records = slots s }

-- A row that the store wrote: reserved, or completed with a deadline.
unfoldable pub IsWritten : Option Row → Type 0
IsWritten none = Unit
IsWritten (some r) =
    (r.state ≡ state_reserved)
    ⊎ ((r.state ≡ state_completed) × (u : ℕ) × (r.record_expires_at ≡ some u))

abbrev pub AreWritten : Table → Type 0
AreWritten s = (key : Bytes) → IsWritten (lookup key s.rows)

-- Such a row is either live or expired.
pub is_expired_iff :
    (t : ℕ) (r : Row) → IsWritten (some r) → is_expired t r ≡ (if is_live t r then false else true)
unfolding is_expired is_live IsWritten is_later is_past
is_expired_iff t r (inl one) = rw one (ground arith)
is_expired_iff t r (inr (two, u, e)) = rw (two, e) (ground arith)

is_later_mono : (o : Option ℕ) (t u : ℕ) → t ≤ u → is_later o t ≡ false → is_later o u ≡ false
unfolding is_later
is_later_mono none t u h e = refl
is_later_mono (some x) t u h e = ground arith

is_live_mono : (t u : ℕ) (r : Row) → t ≤ u → is_live t r ≡ false → is_live u r ≡ false
unfolding is_live
is_live_mono t u r h e = ground (arith, is_later_mono r.record_expires_at t u h)

until_past : (o : Option ℕ) (t u : ℕ) → is_later o t ≡ true → is_later o u ≡ false → until o ≤ u
unfolding is_later
until_past none t u was e = omega arith
until_past (some x) t u was e = ground arith

-- A row that is no longer live has reached its deadline.
due_past : (t u : ℕ) (r : Row) → is_live t r ≡ true → is_live u r ≡ false → due r ≤ u
unfolding is_live
due_past t u r was e = elim (Bool-cases (r.state == state_reserved)) [
  | inl one ↦ rw one (ground arith)
  | inr other ↦ rw other (ground (arith, until_past r.record_expires_at t u))
]

slot_fades :
    (key : Bytes) (t u : ℕ) (o : Option Row)
    → t ≤ u
    → (slot key u o ≡ slot key t o) ⊎ ((slot key u o ≡ none) × IsOver (slot key t o) u)
unfolding slot
slot_fades key t u none h = inl refl
slot_fades key t u (some r) h = elim (Bool-cases (is_live u r)) [
  | inr gone ↦ elim (Bool-cases (is_live t r)) [
    | inl was ↦ inr (rw (gone, was) (refl, (_, refl, due_past t u r was gone)))
    | inr was ↦ inl (rw (gone, was) refl)
  ]
  | inl still ↦ elim (Bool-cases (is_live t r)) [
    | inl was ↦ inl (rw (still, was) refl)
    | inr was ↦ let gone = is_live_mono t u r h was in cc
  ]
]

pub pass-Fades : (d : ℕ) (s : Table) → Fades (view s) (view (pass d s))
pass-Fades d s = (
  omega arith,
  λ key. slot_fades key (stamp s) (stamp (pass d s)) (lookup key s.rows) (omega arith),
)

pub now_lem :
    (w : Node Table)
    → AreWritten w.server
    → let (t, w') = now w in AreWritten w'.server × Fades (view w.server) (view w'.server)
now_lem w kept =
    Node.now_lem pass (λ s. AreWritten s × Fades (view w.server) (view s)) w (kept, Fades-refl _)
      (λ d. (kept, pass-Fades d w.server))

-- One row written or deleted.
pub put_lem :
    (key : Bytes) (s : Table) (rows : Dict Row) (o : Option Row)
    → ((j : Bytes) → lookup j rows ≡ (if bytes_eq key j then o else lookup j s.rows))
    → IsWritten o
    → AreWritten s
    → let s' : Table = record s { rows = rows } in
      AreWritten s' × ((j : Bytes) → slots s' j ≡ update (slots s) key (slot key (stamp s) o) j)
put_lem key s rows o same new kept =
    written-update (λ k x. slot k (stamp s) x) IsWritten key o (λ k. lookup k s.rows)
      (λ k. lookup k rows) same new kept

-- The same of a client's world.
abbrev pub contents : Node Table → View
contents w = view w.server

abbrev pub IsStored : Node Table → Type 0
IsStored w = AreWritten w.server
