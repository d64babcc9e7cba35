-- ===== src/Core/Shared/Trace.antt =====
-- The life of one key in a shared store: a lease is taken, then completed or given back, and at any
-- time the record may expire.
use idemlease.Core.Shared.{dated}
use idemlease.Base.{
  ℕ, ◌+◌, ◌≤◌, ◌≡◌, refl, ap, Bytes, bytes_eq, bytes_eq_refl, Bool, true, false, ◌&&◌, Option, none,
  some, List, [], ◌∷◌, ◌++◌,
}
use idemlease.Core.Time.{zero_time}
use idemlease.Core.Record.{Record, is_reserved}
use idemlease.Core.Spec.{completed_record}

-- What happens to the key: a reservation for so many ticks, a completion under a token with a payload
-- for so many ticks, or a release under a token.
pub data Label : Type 0 where
  acquired : Record → ℕ → Label
  committed : Bytes → Bytes → ℕ → Label
  given_back : Bytes → Label

-- The runs from what the slot holds at one instant of the server's clock to another: a record goes at
-- its deadline, or by the token that it has.
pub data Run : ℕ → Option Record → List Label → ℕ → Option Record → Type 0 where
  stop : {t : ℕ} {o : Option Record} → Run t o [] t o
  wait :
      {t u : ℕ} {o o' : Option Record} {ls : List Label} {v : ℕ}
      → t ≤ u
      → Run u o ls v o'
      → Run t o ls v o'
  fade :
      (r : Record) {t v : ℕ} {o' : Option Record} {ls : List Label}
      → r.lease_expires_at ≤ t
      → Run t none ls v o'
      → Run t (some r) ls v o'
  acquire :
      (r : Record) (n : ℕ) {t v : ℕ} {o' : Option Record} {ls : List Label}
      → is_reserved r.state ≡ true
      → Run t (some (dated (t + n) r)) ls v o'
      → Run t none (acquired r n ∷ ls) v o'
  commit :
      (r : Record) (payload : Bytes) (n : ℕ) {t v : ℕ} {o' : Option Record} {ls : List Label}
      → is_reserved r.state ≡ true
      → Run t (some (dated (t + n) (completed_record r payload zero_time))) ls v o'
      → Run t (some r) (committed r.token payload n ∷ ls) v o'
  give_back :
      (r : Record) {t v : ℕ} {o' : Option Record} {ls : List Label}
      → is_reserved r.state ≡ true
      → Run t none ls v o'
      → Run t (some r) (given_back r.token ∷ ls) v o'

pub then-Run :
    {t u v : ℕ} {a b c : Option Record} {ls ms : List Label}
    → Run t a ls u b
    → Run u b ms v c
    → Run t a (ls ++ ms) v c
then-Run stop y = y
then-Run (wait le x) y = wait le (then-Run x y)
then-Run (fade r due x) y = fade r due (then-Run x y)
then-Run (acquire r n h x) y = acquire r n h (then-Run x y)
then-Run (commit r p n h x) y = commit r p n h (then-Run x y)
then-Run (give_back r h x) y = give_back r h (then-Run x y)

abbrev is_token : Bytes → Option Bytes → Bool
is_token t none = false
is_token t (some h) = bytes_eq h t

-- Each completion and each release is under the token of the latest acquisition, and at most one of
-- them follows it.
unfoldable pub is_fenced : Option Bytes → List Label → Bool
is_fenced holder [] = true
is_fenced holder (acquired r n ∷ ls) = is_fenced (some r.token) ls
is_fenced holder (committed t payload n ∷ ls) = is_token t holder && is_fenced none ls
is_fenced holder (given_back t ∷ ls) = is_token t holder && is_fenced none ls

-- The holder is that of the record, if one is held.
abbrev IsHolder : Option Record → Option Bytes → Type 0
IsHolder o h = (r : Record) → o ≡ some r → is_reserved r.state ≡ true → h ≡ some r.token

abbrev is_held : Option Record → Bool
is_held none = false
is_held (some r) = is_reserved r.state

pub Run-is_fenced :
    {t u : ℕ} {o o' : Option Record} {ls : List Label} {h : Option Bytes}
    → Run t o ls u o'
    → IsHolder o h
    → is_fenced h ls ≡ true
unfolding is_fenced completed_record
Run-is_fenced stop holds = refl
Run-is_fenced (wait le x) holds = Run-is_fenced x holds
Run-is_fenced (fade r due x) holds = Run-is_fenced x (λ r e. cc)
Run-is_fenced (acquire r n reserved x) holds = Run-is_fenced x (λ r' e reserved'. cc)
Run-is_fenced (commit r p n reserved x) holds =
    let rest =
      Run-is_fenced {h = none} x
        (λ r' e reserved'. let is_done : false ≡ is_reserved r'.state = ap is_held e in cc) in
    rw (holds r refl reserved, bytes_eq_refl r.token) rest
Run-is_fenced (give_back r reserved x) holds =
    let rest = Run-is_fenced {h = none} x (λ r' e reserved'. cc) in
    rw (holds r refl reserved, bytes_eq_refl r.token) rest
