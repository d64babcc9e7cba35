-- ===== src/Pgstore/Atomic.antt =====
-- The store keeps the shared contract: the statement that decides a call runs at one instant of the
-- server.
use idemlease.Base.{◌≡◌, ◌⊎◌, Bytes, true, Option, some}
use idemlease.Core.Record.{Record}
use idemlease.Core.Store.{Error, is, Sentinel, token_mismatch, not_found}
use idemlease.Core.Spec.{transition, holds}
use idemlease.Core.Node.{Node}
use idemlease.Core.Shared.{View, IsFault}

-- Why nothing changed, or a fault.
abbrev IsRefusal : Option Error → Type 0
IsRefusal e =
    ((x : Error) × (e ≡ some x) × ((is x token_mismatch ≡ true) ⊎ (is x not_found ≡ true)))
    ⊎ IsFault e

-- The calls that are a compare-and-set.
module _ (key token : Bytes) (entry : View → Option Record) where
  abbrev set_now : View → Option Sentinel × View
  set_now a =
      let (e, records) = transition (holds token (a.records key)) key (entry a) a.records in
      (e, record a { records = records })
