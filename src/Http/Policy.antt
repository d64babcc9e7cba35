-- ===== src/Http/Policy.antt =====
-- httpidem/policy.go: whether a response is kept for replay. The error that a handler reports through
-- `SetError` is a number to the middleware, which does not look into it.
use idemlease.Base.{ℕ, leb, ◌==◌, if◌then◌else◌, Option, ◌≡◌, ◌≤◌, ◌≢◌, ◌⊎◌, ◌↔◌, arith}
use idemlease.Core.Lease.{Decision, persist, discard}

-- `ReplayPolicy`
abbrev pub ReplayPolicy : Type 0
ReplayPolicy = ℕ → Option ℕ → Decision

-- `defaultDecide`
unfoldable pub default_decide : ReplayPolicy
default_decide status e =
    if status == 429 then discard else if leb 500 status then discard else persist

-- The default policy persists exactly the statuses below 500 but 429, and discards all the others,
-- whatever error the handler reported.
pub default_decide_lem :
    (status : ℕ) (e : Option ℕ)
    → ((default_decide status e ≡ discard) ↔ ((status ≡ 429) ⊎ (500 ≤ status)))
      × ((default_decide status e ≡ persist) ↔ ((status ≢ 429) × (status ≤ 499)))
unfolding default_decide
default_decide_lem status e =
    (((λ h. ground arith), (λ h. ground arith)), ((λ h. ground arith), (λ h. ground arith)))
