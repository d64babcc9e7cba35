-- ===== src/Core/Shared.antt =====
-- What store.go promises of a store that several processes share and whose server keeps the time:
-- a record is there until its deadline by the server's clock.
pub mod Slots
pub mod Trace
pub mod Fencing
pub mod Fenced
pub mod Begin
pub mod Finish
use idemlease.Base.{
  ℕ, ◌+◌, ◌*◌, ◌≤◌, ◌≡◌, ◌∙◌, refl, sym, true, false, ◌⊎◌, inl, inr, Bytes, [], Option, none, some,
  arith,
}
use idemlease.Base.Decimal.{IsInt64}
use idemlease.Core.Time.{Time, Duration, zero_time, sub, at_least_one_ms}
use idemlease.Core.Record.{reserved, Record}
use idemlease.Core.Store.{Sentinel, Error, Store, is, already_exists, token_mismatch, not_found}
use idemlease.Core.Spec.{Records, claim, transition, holds, completed_record}

-- The record without its deadlines.
abbrev pub bare : Record → Record
bare r = record r { lease_expires_at = zero_time; record_expires_at = zero_time }

-- The record with the deadline that is in force by the server's clock, which stands where the lease's does.
abbrev pub dated : ℕ → Record → Record
dated d r = record r { lease_expires_at = d; record_expires_at = zero_time }

-- What the server holds at an instant of its clock; the records are dated.
pub record View : Type 0 where
  pub time : ℕ
  pub records : Records

-- The record has reached its deadline.
abbrev pub IsOver : Option Record → ℕ → Type 0
IsOver o t = (r : Record) × (o ≡ some r) × (r.lease_expires_at ≤ t)

-- Time goes by, and takes no record before its deadline.
abbrev pub Fades : View → View → Type 0
Fades a b =
    (a.time ≤ b.time)
    × ((k : Bytes)
        → (b.records k ≡ a.records k) ⊎ ((b.records k ≡ none) × IsOver (a.records k) b.time))

pub Fades-refl : (a : View) → Fades a a
Fades-refl a = (omega arith, λ k. inl refl)

-- Views that agree at one instant.
pub Fades-same :
    (a b : View) → b.time ≡ a.time → ((k : Bytes) → b.records k ≡ a.records k) → Fades a b
Fades-same a b at same = (omega arith, λ k. inl (same k))

faded_twice :
    {o o' o'' : Option Record} {t u : ℕ}
    → t ≤ u
    → (o' ≡ o) ⊎ ((o' ≡ none) × IsOver o t)
    → (o'' ≡ o') ⊎ ((o'' ≡ none) × IsOver o' u)
    → (o'' ≡ o) ⊎ ((o'' ≡ none) × IsOver o u)
faded_twice le (inl e) (inl e') = inl (e' ∙ e)
faded_twice le (inl e) (inr (gone, (r, there, due))) = inr (gone, (r, sym e ∙ there, due))
faded_twice le (inr (gone, (r, there, due))) (inl e') = inr (e' ∙ gone, (r, there, omega arith))
faded_twice le (inr (gone, (r, there, due))) (inr (gone', over)) =
    inr (gone', (r, there, omega arith))

pub Fades-trans : (a b c : View) → Fades a b → Fades b c → Fades a c
Fades-trans a b c (ab, keeps) (bc, keeps') = (omega arith, λ k. faded_twice bc (keeps k) (keeps' k))

-- The three operations, at one instant of the server; the deadlines are so many ticks away.
unfoldable pub reserve_now : ℕ → Record → View → Option Record × View
reserve_now n rec a =
    let (found, records) = claim (a.records rec.key) (dated (a.time + n) rec) a.records in
    (found, record a { records = records })

unfoldable pub completed_now : Bytes → ℕ → Option Record → Option Record
completed_now payload d none = none
completed_now payload d (some r) = some (dated d (completed_record r payload zero_time))

unfoldable pub complete_now : ℕ → Bytes → Bytes → Bytes → View → Option Sentinel × View
complete_now n key token payload a =
    let (e, records) =
      transition (holds token (a.records key)) key
        (completed_now payload (a.time + n) (a.records key)) a.records in
    (e, record a { records = records })

unfoldable pub release_now : Bytes → Bytes → View → Option Sentinel × View
release_now key token a =
    let (e, records) = transition (holds token (a.records key)) key none a.records in
    (e, record a { records = records })

-- The reply of `Reserve` for the record that stands in the way, whose deadline is the server's.
abbrev pub Found : Option Record → Option Record × Option Error → Type 0
Found none reply = reply ≡ (none, none)
Found (some r) reply =
    (x : Record) × (e : Error) × (reply ≡ (some x, some e))
    × (is e already_exists ≡ true)
    × (bare x ≡ bare r)

-- The error of `Complete` and `Release`: which sentinel it is does not matter to `Finish`.
abbrev pub Refused : Option Sentinel → Option Error → Type 0
Refused none e = e ≡ none
Refused (some s) e =
    (x : Error) × (e ≡ some x) × ((is x token_mismatch ≡ true) ⊎ (is x not_found ≡ true))

-- An error that is none of the sentinels.
abbrev pub IsFault : Option Error → Type 0
IsFault e =
    (x : Error) × (e ≡ some x)
    × (is x already_exists ≡ false)
    × (is x token_mismatch ≡ false)
    × (is x not_found ≡ false)

-- The operation happened at an instant between, and its answer is the reply.
pub record Took {R : Type 0} (f : View → R × View) (Answer : R → Type 0) (before after : View)
    : Type 0 where
  pub at : View
  pub faded : Fades before at
  pub answered : Answer (f at).0
  pub left : Fades (f at).1 after

-- A call: the operation with its answer, or a fault, after which it may have happened or not.
abbrev pub Call :
    {R : Type 0} → (View → R × View) → (R → Type 0) → Option Error → View → View → Type 0
Call {R = R} f Answer e before after =
    Took f Answer before after
    ⊎ (IsFault e × (Fades before after ⊎ Took f (λ (r : R). Unit {0}) before after))

-- What `Begin` hands to `Reserve`.
abbrev pub IsReservation : Record → Type 0
IsReservation rec = (rec.state ≡ reserved) × (rec.payload ≡ [])

-- A call of `Reserve`: the lease runs on the server for the milliseconds (one at least) that were left
-- of it at a reading of the client's clock during the call.
abbrev pub Reserved : ℕ → Record → Option Record × Option Error → Time → View → Time → View → Type 0
Reserved ticks rec reply start before end after =
    (t : Time) × (start ≤ t)
    × (t ≤ end)
    × Call (reserve_now (at_least_one_ms (sub rec.lease_expires_at t) * ticks) rec)
        (λ found. Found found reply) reply.1 before after

-- The laws, for the worlds that the operations can lead to, with the ticks of the server's clock in a
-- millisecond and the client's clock.
pub record IsShared {W : Type 0} (ticks : ℕ) (clock : W → Time) (Inv : W → Type 0)
    (slots : W → View) (s : Store W) : Type 0 where
  pub reserve_law :
      (rec : Record) (w : W)
      → IsReservation rec
      → Inv w
      → let (reply, w') = s.reserve rec w in
        Inv w' × Reserved ticks rec reply (clock w) (slots w) (clock w') (slots w')
  pub complete_law :
      (key token payload : Bytes) (ttl : Duration) (w : W)
      → IsInt64 ttl
      → Inv w
      → let (e, w') = s.complete key token payload ttl w in
        Inv w'
        × Call
            (complete_now (at_least_one_ms ttl * ticks) key token payload)
            (λ s. Refused s e)
            e
            (slots w)
            (slots w')
  pub release_law :
      (key token : Bytes) (w : W)
      → Inv w
      → let (e, w') = s.release key token w in
        Inv w' × Call (release_now key token) (λ s. Refused s e) e (slots w) (slots w')
