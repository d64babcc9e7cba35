-- ===== src/Memstore.antt =====
-- memstore/memstore.go: the in-memory store. A mutex makes each method one step, so the store is
-- a map and each method a function on it.
pub mod Lawful
mod Tests
mod FaultTests
use idemlease.Base.{ℕ, ◌+◌, Bytes, bytes_eq, if◌then◌else◌, Option, none, some, List, [], ◌∷◌}
use idemlease.Base.Dict.{Dict, lookup, insert, erase}
use idemlease.Base.Monad.{M}
use idemlease.Core.Time.{Time, Duration, add}
use idemlease.Core.Record.{completed, is_reserved, Record, expired}
use idemlease.Core.Store.{
  Error, Result, ok, err, Store, Runtime, sentinel, already_exists, token_mismatch, not_found,
  other,
}

-- The process that the store lives in: its map, the latest reading of the clock, the time that
-- passes before each further reading (none after the last), and the random draws to come.
pub record World : Type 0 where
  pub recs : Dict Record
  pub clock : Time
  pub delays : List ℕ
  pub draws : List (Result Bytes)

-- `New`
abbrev pub new : Time → List ℕ → List (Result Bytes) → World
new t delays draws = record { recs = []; clock = t; delays = delays; draws = draws }

tick : List ℕ → World → Time × World
tick [] w = (w.clock, w)
tick (d ∷ ds) w = (w.clock + d, record w { clock = w.clock + d; delays = ds })

-- `time.Now`
unfoldable pub now : M World Time
unfolding tick
now w = tick w.delays w

draw : List (Result Bytes) → World → Result Bytes × World
draw [] w = (err (other 0), w)
draw (b ∷ bs) w = (b, record w { draws = bs })

-- `rand.Read`; it fails when no draw is left.
unfoldable pub rand : M World (Result Bytes)
unfolding draw
rand w = draw w.draws w

drop_expired : Option Record → Bytes → Time → World → Option Record × World
drop_expired none key t w = (none, w)
drop_expired (some r) key t w =
    if expired r t then (none, record w { recs = erase key w.recs }) else (some r, w)

-- `Store.lookup`: the live record, where an expired one is deleted.
lookup_live : Bytes → Time → World → Option Record × World
unfolding drop_expired
lookup_live key t w = drop_expired (lookup key w.recs) key t w

store_reservation : Record → Option Record × World → (Option Record × Option Error) × World
store_reservation rec (some r, w) = ((some r, some (sentinel already_exists)), w)
store_reservation rec (none, w) = ((none, none), record w { recs = insert rec.key rec w.recs })

-- `Store.Reserve`
unfoldable pub reserve : Record → M World (Option Record × Option Error)
unfolding now lookup_live store_reservation
reserve rec w = let (t, w') = now w in store_reservation rec (lookup_live rec.key t w')

-- The fields that `Complete` assigns.
abbrev completed_by : Record → Bytes → Time → Record
completed_by r payload until = record r {
  state = completed;
  payload = payload;
  record_expires_at = until;
}

store_completed : Bytes → Bytes → Bytes → Time → Option Record × World → Option Error × World
store_completed key token payload until (none, w) = (some (sentinel not_found), w)
store_completed key token payload until (some r, w) =
    if bytes_eq r.token token
    then (if is_reserved r.state
        then (none, record w { recs = insert key (completed_by r payload until) w.recs })
        else (some (sentinel not_found), w))
    else (some (sentinel token_mismatch), w)

-- `Store.Complete`
unfoldable pub complete : Bytes → Bytes → Bytes → Duration → M World (Option Error)
unfolding now lookup_live store_completed
complete key token payload ttl w =
    let (t, w') = now w in store_completed key token payload (add t ttl) (lookup_live key t w')

delete_released : Bytes → Bytes → Option Record × World → Option Error × World
delete_released key token (none, w) = (some (sentinel not_found), w)
delete_released key token (some r, w) =
    if bytes_eq r.token token
    then (if is_reserved r.state
        then (none, record w { recs = erase key w.recs })
        else (some (sentinel not_found), w))
    else (some (sentinel token_mismatch), w)

-- `Store.Release`
unfoldable pub release : Bytes → Bytes → M World (Option Error)
unfolding now lookup_live delete_released
release key token w = let (t, w') = now w in delete_released key token (lookup_live key t w')

-- `Store.Get`
pub get : Bytes → M World (Result (Option Record))
unfolding now lookup_live
get key w = let (t, w') = now w in let (found, w'') = lookup_live key t w' in (ok found, w'')

abbrev pub store : Store World
store = record { reserve = reserve; complete = complete; release = release; get = get }

abbrev pub runtime : Runtime World
runtime = record { now = now; rand = rand }

-- What the map holds, expired records included.
abbrev pub contents : World → Bytes → Option Record
contents w k = lookup k w.recs
