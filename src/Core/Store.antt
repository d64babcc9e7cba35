-- ===== src/Core/Store.antt =====
-- store.go: the sentinel errors and the interface `Store`, with the runtime that `Begin` reads.
use idemlease.Base.{ℕ, ◌≡◌, refl, ◌⊎◌, inl, inr, Bytes, Bool, true, false, Option}
use idemlease.Base.Monad.{M}
use idemlease.Core.Time.{Time, Duration}
use idemlease.Core.Record.{Record}

-- The errors that a store must return.
pub data Sentinel : Type 0 where
  already_exists token_mismatch not_found : Sentinel

abbrev pub sentinel_eq : Sentinel → Sentinel → Bool
sentinel_eq already_exists already_exists = true
sentinel_eq token_mismatch token_mismatch = true
sentinel_eq not_found not_found = true
sentinel_eq _ _ = false

-- An error value: a sentinel, one of the errors that `Begin` and `Finish` make, one of the
-- infrastructure's (by number), or any of these wrapped by `%w`.
pub data Error : Type 0 where
  sentinel : Sentinel → Error
  missing_existing expired_existing : Error
  invalid_state : ℕ → Error
  invalid_decision : ℕ → Error
  other : ℕ → Error
  wrapped : Error → Error

-- `errors.Is(err, target)` for a sentinel.
unfoldable pub is : Error → Sentinel → Bool
is (sentinel s) t = sentinel_eq s t
is (wrapped e) t = is e t
is _ t = false

-- Go's (value, error) pair where the value is meaningless beside an error.
pub data Result (A : Type 0) : Type 0 where
  ok : A → Result A
  err : Error → Result A

pub Result-cases :
    {A : Type 0} (x : Result A) → ((a : A) × (x ≡ ok a)) ⊎ ((e : Error) × (x ≡ err e))
Result-cases (ok a) = inl (a, refl)
Result-cases (err e) = inr (e, refl)

-- The four methods, over the world `W` that they read and change. `Reserve` returns both halves
-- of Go's pair; no error is `none`.
pub record Store (W : Type 0) : Type 0 where
  pub reserve : Record → M W (Option Record × Option Error)
  pub complete : Bytes → Bytes → Bytes → Duration → M W (Option Error)
  pub release : Bytes → Bytes → M W (Option Error)
  pub get : Bytes → M W (Result (Option Record))

-- `time.Now` and `rand.Read` on sixteen bytes.
pub record Runtime (W : Type 0) : Type 0 where
  pub now : M W Time
  pub rand : M W (Result Bytes)
