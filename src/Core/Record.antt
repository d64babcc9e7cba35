-- ===== src/Core/Record.antt =====
-- record.go: the unit that a store keeps, and when it is logically absent.
use idemlease.Base.{ℕ, Bytes, Bool, true, false, not}
use idemlease.Core.Time.{Time, before}

-- A `State` is a byte: 1 is reserved, 2 is completed, and any other value is invalid.
pub data State : Type 0 where
  reserved completed : State
  invalid : ℕ → State

abbrev pub is_reserved : State → Bool
is_reserved reserved = true
is_reserved _ = false

-- A nil byte slice is the empty one.
pub record Record : Type 0 where
  pub key : Bytes
  pub fingerprint : Bytes
  pub state : State
  pub token : Bytes
  pub lease_expires_at : Time
  pub record_expires_at : Time
  pub payload : Bytes

expired_in : State → Record → Time → Bool
expired_in reserved r now = not (before now r.lease_expires_at)
expired_in completed r now = not (before now r.record_expires_at)
expired_in (invalid n) r now = true

-- `Record.Expired`
unfoldable pub expired : Record → Time → Bool
unfolding expired_in
expired r now = expired_in r.state r now
