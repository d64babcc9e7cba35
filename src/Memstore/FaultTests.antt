-- ===== src/Memstore/FaultTests.antt =====
-- Runs of `Begin` and `Finish` over stores that fail.
use idemlease.Base.{refl, Bytes, some, [], ◌∷◌}
use idemlease.Base.Int.{pos}
use idemlease.Core.Record.{State, Record, expired}
use idemlease.Core.Store.{Store, sentinel, already_exists, ok, is}
use idemlease.Core.Lease.{Options, reservation}
use idemlease.Core.Lease.Faults.{IsStubborn}
use idemlease.Memstore.{World, new, store, runtime}

abbrev order_key : Bytes
order_key = 7 ∷ 8 ∷ []

abbrev print_a : Bytes
print_a = 1 ∷ 1 ∷ []

abbrev limits : Options
limits = record { lease_ttl = pos 100; record_ttl = pos 1000 }

abbrev empty : World
empty = new 1000 (1 ∷ 1 ∷ 2 ∷ 1 ∷ []) (ok (171 ∷ []) ∷ ok (205 ∷ []) ∷ [])

-- A store that always finds the same record, in no valid state.
abbrev ruined : Record
ruined = record (reservation order_key print_a [] 1100) { state = State.invalid 7 }

abbrev stubborn_store : Store World
stubborn_store = record store {
  reserve = λ rec w. ((some ruined, some (sentinel already_exists)), w);
}

stubborn_store-IsStubborn : IsStubborn stubborn_store runtime
unfolding expired is
stubborn_store-IsStubborn rec w = (ruined, sentinel already_exists, refl, refl, (λ t. refl))
