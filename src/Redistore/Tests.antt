-- ===== src/Redistore/Tests.antt =====
-- Runs of the store over the key space of functions.
use idemlease.Base.{ℕ, ◌+◌, ◌*◌, Bytes, none, List, [], ◌∷◌, arith}
use idemlease.Base.Int.{pos}
use idemlease.Base.Decimal.{IsInt64}
use idemlease.Base.Text.{codes}
use idemlease.Core.Time.{second, at_least_one_ms}
use idemlease.Core.Record.{Record}
use idemlease.Core.Store.{ok, Runtime}
use idemlease.Core.Lease.{lease_ttl, record_ttl, Options, reservation, persist, begin, finish}
use idemlease.Core.Node
use idemlease.Core.Shared.{Fades-refl}
use idemlease.Core.Shared.Fencing.{Op, reserve_op, complete_op, release_op}
use idemlease.Core.Shared.Begin.{IsRuntime, Begun, begin-Begun}
use idemlease.Core.Shared.Finish.{Concludes, concluded, finish-Concludes}
use idemlease.Core.Node.{Node, delivered, lost_after}
use idemlease.Redistore.{default_prefix, now, store}
use idemlease.Redistore.Atomic.{contents, IsStored, store-IsShared}
use idemlease.Redistore.Slots.{IsKept, now_lem}
use idemlease.Redistore.Example.{KeySpace, redis, redis-IsRedis}

abbrev order_key : Bytes
order_key = codes "order-1"

abbrev token_a : Bytes
token_a = codes "aa"

abbrev token_b : Bytes
token_b = codes "bb"

abbrev limits : Options
limits = record { lease_ttl = pos (30 * second); record_ttl = pos (3600 * second) }

abbrev start : ℕ
start = 63835596800000000000

-- An empty server; the reply of the third call is lost.
abbrev fresh : Node KeySpace
fresh = record {
  server = record { time = 1700000000000; hashes = λ k. none };
  clock = start;
  delays = 5000000 ∷ 1000000 ∷ [];
  network = delivered ∷ delivered ∷ lost_after 7 ∷ [];
}

abbrev lease_of : Bytes → Record
lease_of token = reservation order_key (codes "fp") token (start + 30 * second)

-- Two clients want the key; the reply of the holder's completion is lost, and it tries again.
abbrev calls : List Op
calls =
    reserve_op (lease_of token_a)
    ∷ reserve_op (lease_of token_b)
    ∷ complete_op order_key token_a (codes "done") (pos (3600 * second))
    ∷ complete_op order_key token_a (codes "done") (pos (3600 * second))
    ∷ release_op order_key token_b
    ∷ []

abbrev runtime : Runtime (Node KeySpace)
runtime = record { now = now redis default_prefix; rand = λ w. (ok (171 ∷ []), w) }

fresh-IsStored : IsStored redis-IsRedis default_prefix fresh
unfolding IsKept
fresh-IsStored key = tt

limits_fit : IsInt64 (record_ttl limits)
unfolding record_ttl
limits_fit = omega arith

runtime-IsRuntime :
    IsRuntime
      (λ w. w.clock)
      (IsStored redis-IsRedis default_prefix)
      (contents redis-IsRedis default_prefix)
      runtime
runtime-IsRuntime = record {
  now_law = λ w inv.
      let (kept, faded) = now_lem redis-IsRedis default_prefix w inv in
      (kept, faded, Node.now_clock redis.pass w, Node.now_later redis.pass w);
  rand_law = λ w inv. (inv, Fades-refl _, omega arith);
}

begin-Begun_example :
    let (res, w') =
      begin (store redis default_prefix) runtime order_key (codes "fp") limits fresh in
    IsStored redis-IsRedis default_prefix w'
    × Begun 1
        (lease_ttl limits)
        fresh.clock
        w'.clock
        order_key
        (codes "fp")
        res
        (contents redis-IsRedis default_prefix fresh)
        (contents redis-IsRedis default_prefix w')
begin-Begun_example =
    begin-Begun (store-IsShared redis-IsRedis default_prefix) runtime-IsRuntime order_key
      (codes "fp") limits fresh fresh-IsStored

finish-Concludes_example :
    let (res, w') =
      finish (store redis default_prefix) order_key token_a persist (codes "done") limits fresh in
    IsStored redis-IsRedis default_prefix w'
    × Concludes
        (concluded
          (at_least_one_ms (record_ttl limits) * 1)
          persist
          order_key
          token_a
          (codes "done"))
        res
        (contents redis-IsRedis default_prefix fresh)
        (contents redis-IsRedis default_prefix w')
finish-Concludes_example =
    finish-Concludes (store-IsShared redis-IsRedis default_prefix) order_key token_a (codes "done")
      persist limits fresh limits_fit fresh-IsStored
