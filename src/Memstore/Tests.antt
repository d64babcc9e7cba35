-- ===== src/Memstore/Tests.antt =====
-- Runs of `Begin` and `Finish` over the in-memory store.
use idemlease.Base.{List, ◌-◌, min, ◌≡◌, ◌≢◌, refl, Bytes, [], ◌∷◌, true, arith}
use idemlease.Base.Int.{pos}
use idemlease.Core.Time.{max_duration}
use idemlease.Core.Record.{completed, Record, expired}
use idemlease.Core.Store.{ok, is}
use idemlease.Core.Spec.{Agrees, live}
use idemlease.Core.Lease.{
  Options, lease_ttl, record_ttl, Outcome, outcome, replay, reject_in_flight,
  reject_fingerprint_mismatch, reservation, persist, discard, begin, finish, hex_encode, new_token,
  begin_loop, attempt, react, examine, answer,
}
use idemlease.Core.Lease.Linear.{Linearized, begin-Linearized}
use idemlease.Core.Lease.Answers.{begin_total}
use idemlease.Core.Lease.Finishing.{IsLost, finish-IsLost}
use idemlease.Core.Lease.Exclusive.{
  Call, begin_call, finish_call, Spares, run, Held, at_most_one_lease,
}
use idemlease.Core.Lease.Cycle.{persisted_is_replayed}
use idemlease.Base.Dict.{lookup, insert, erase}
use idemlease.Base.{false, bytes_eq, All}
use idemlease.Memstore.{World, new, now, rand, reserve, complete, release, store, runtime, contents}
use idemlease.Memstore.Lawful.{clock_of, store-IsLawful}

abbrev order_key : Bytes
order_key = 7 ∷ 8 ∷ []

abbrev print_a : Bytes
print_a = 1 ∷ 1 ∷ []

abbrev print_b : Bytes
print_b = 2 ∷ 2 ∷ []

abbrev limits : Options
limits = record { lease_ttl = pos 100; record_ttl = pos 1000 }

abbrev empty : World
empty = new 1000 (1 ∷ 1 ∷ 2 ∷ 1 ∷ []) (ok (171 ∷ []) ∷ ok (205 ∷ []) ∷ [])

abbrev lease : Record
lease = reservation order_key print_a (hex_encode (171 ∷ [])) 1100

abbrev leased : World
leased = record empty {
  recs = (order_key, lease) ∷ [];
  draws = ok (205 ∷ []) ∷ ok (206 ∷ []) ∷ ok (207 ∷ []) ∷ [];
}

abbrev done : Record
done = record lease { state = completed; record_expires_at = 2000; payload = 5 ∷ [] }

abbrev stored : World
stored = record empty { recs = (order_key, done) ∷ [] }

-- A second request retries while the first runs, and another key is taken and released.
abbrev others : List Call
others =
    begin_call order_key print_a limits
    ∷ begin_call (9 ∷ []) print_b limits
    ∷ finish_call (9 ∷ []) (hex_encode (206 ∷ [])) discard [] limits
    ∷ []

begin-Linearized_example :
    let (res, w') = begin store runtime order_key print_a limits empty in
    Linearized 1000
      (w'.clock)
      (contents empty)
      (contents w')
      order_key
      print_a
      limits
      (hex_encode (171 ∷ []))
      res
unfolding rand
begin-Linearized_example =
    begin-Linearized clock_of contents store runtime store-IsLawful order_key print_a limits empty
      (171 ∷ []) refl

begin_total_example :
    (out : Outcome) × ((begin store runtime order_key print_a limits leased).0 ≡ ok out)
unfolding rand
begin_total_example =
    begin_total clock_of contents store runtime store-IsLawful order_key print_a limits leased
      (205 ∷ []) refl

-- The token is another execution's.
finish-IsLost_example :
    let (kept, w1) = finish store order_key print_b persist [] limits leased in
    let (dropped, w2) = finish store order_key print_b discard [] limits leased in
    (IsLost w1.clock print_b (contents leased order_key)
      → (kept ≡ ok true) × Agrees w1.clock (contents w1) (contents leased))
    × (IsLost w2.clock print_b (contents leased order_key)
        → (dropped ≡ ok true) × Agrees w2.clock (contents w2) (contents leased))
finish-IsLost_example =
    finish-IsLost clock_of contents store runtime store-IsLawful order_key print_b [] limits leased

abbrev own_token : Bytes
own_token = hex_encode (171 ∷ [])

others-Spare : All (Spares order_key own_token) others
unfolding hex_encode
others-Spare = (tt, (tt, ((λ e t. cc), tt)))

-- Three calls of other executions, and then a retry.
at_most_one_lease_example :
    let w1 = run store runtime others leased in
    let (res, w2) = begin store runtime order_key print_b limits w1 in
    Held clock_of contents store runtime store-IsLawful order_key lease refl w1
    × (res
        ≡ ok (record (outcome reject_in_flight) {
          retry_after = pos (min (1100 - w2.clock) max_duration);
        }))
unfolding rand now reserve lookup begin new_token begin_loop attempt react examine answer expired
    bytes_eq is run finish live insert erase release hex_encode lease_ttl
at_most_one_lease_example =
    at_most_one_lease clock_of contents store runtime store-IsLawful order_key lease refl others
      leased refl others-Spare print_b limits (207 ∷ []) refl (omega arith)

-- The calls of other executions while `empty`'s first request runs: another key only.
abbrev elsewhere : List Call
elsewhere = begin_call (9 ∷ []) print_b limits ∷ []

elsewhere-Spare : All (Spares order_key own_token) elsewhere
elsewhere-Spare = (tt, tt)

abbrev busy : World
busy = record empty { draws = ok (171 ∷ []) ∷ ok (205 ∷ []) ∷ ok (206 ∷ []) ∷ [] }

abbrev working : World
working = run store runtime elsewhere (begin store runtime order_key print_a limits busy).1

persisted_is_replayed_example :
    let (lost, w1) = finish store order_key own_token persist (5 ∷ []) limits working in
    let (res, w') = begin store runtime order_key print_a limits w1 in
    (lost ≡ ok false)
    × (print_a ≡ print_a → res ≡ ok (record (outcome replay) { payload = 5 ∷ [] }))
    × (print_a ≢ print_a → res ≡ ok (outcome reject_fingerprint_mismatch))
unfolding rand now reserve lookup begin new_token begin_loop attempt react examine answer expired
    bytes_eq is run finish live insert erase complete hex_encode lease_ttl record_ttl
persisted_is_replayed_example =
    persisted_is_replayed clock_of contents store runtime store-IsLawful order_key print_a limits
      busy (171 ∷ []) refl refl elsewhere elsewhere-Spare (5 ∷ []) limits (omega arith) print_a
      (206 ∷ []) refl (omega arith)
