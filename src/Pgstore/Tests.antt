-- ===== src/Pgstore/Tests.antt =====
-- Runs of the store over small tables.
use idemlease.Base.{
  ℕ, ◌*◌, ◌≤◌, ◌≡◌, refl, Bytes, bytes_eq, if◌then◌else◌, Bool, true, false, inl, inr, none, some,
  [], ◌∷◌, arith,
}
use idemlease.Base.Int.{pos}
use idemlease.Base.Dict.{lookup, insert}
use idemlease.Base.Text.{codes}
use idemlease.Core.Time.{Duration, second}
use idemlease.Core.Record.{Record}
use idemlease.Core.Store.{ok, err}
use idemlease.Core.Lease.{reservation}
use idemlease.Core.Shared.{dated}
use idemlease.Core.Node.{Node, lost_after, send, transmit}
use idemlease.Pgstore.{reserve, complete_tx, on_tx_affected, already_completed, sweep}
use idemlease.Pgstore.Rows.{
  stamp, Row, Table, q_complete, update_row, is_held, state_reserved, state_completed,
}
use idemlease.Pgstore.Slots.{IsWritten, contents, IsStored, slots}
use idemlease.Pgstore.Sweeping.{count, IsLimit}
use idemlease.Base.{ℕ, ◌<◌, zero, suc, List, [], ◌∷◌, All, take}
use idemlease.Pgstore.Housekeeping.{IsKeyed, sweep-slots}
use idemlease.Pgstore.Joining.{Joined, complete_tx-Joined, complete_tx_twice}
use idemlease.Pgstore.Recovery.{reserve_abandoned}

abbrev order_key : Bytes
order_key = codes "order-1"

abbrev token_a : Bytes
token_a = codes "aa"

abbrev leased_row : Row
leased_row = record {
  state = state_reserved;
  token = token_a;
  fingerprint = codes "fp";
  payload = [];
  lease_expires_at = 5000000;
  record_expires_at = none;
}

abbrev old_row : Row
old_row = record leased_row { state = state_completed; record_expires_at = some 2000000 }

-- One second before the lease's deadline; another key's record is over.
abbrev held : Node Table
held = record {
  server = record {
    rows = (codes "order-0", old_row) ∷ (order_key, leased_row) ∷ [];
    time = 4 * second;
  };
  clock = 70 * second;
  delays = [];
  network = [];
}

-- And after it.
abbrev over : Node Table
over = record held {
  server = record { rows = (order_key, leased_row) ∷ []; time = 6 * second };
  delays = 5 ∷ [];
}

abbrev unsure : Node Table
unsure = record held { network = lost_after 9 ∷ [] }

abbrev takeover : Record
takeover = reservation order_key (codes "fp") (codes "bb") (100 * second)

abbrev day : Duration
day = pos (86400 * second)

rows-IsWritten :
    (b c : Bool) → IsWritten (if b then some old_row else (if c then some leased_row else none))
unfolding IsWritten
rows-IsWritten true c = inr (refl, 2000000, refl)
rows-IsWritten false true = inl refl
rows-IsWritten false false = tt

held-IsStored : IsStored held
unfolding lookup
held-IsStored key = rows-IsWritten (bytes_eq (codes "order-0") key) (bytes_eq order_key key)

over-IsStored : IsStored over
unfolding lookup
over-IsStored key = rows-IsWritten false (bytes_eq order_key key)

held-IsKeyed : IsKeyed held.server.rows
unfolding IsKeyed lookup bytes_eq
held-IsKeyed = (refl, (refl, tt))

joins : (complete_tx order_key token_a (codes "done") day held).0 ≡ ok false
unfolding complete_tx q_complete update_row is_held lookup insert bytes_eq on_tx_affected send
    transmit
joins = refl

there : lookup order_key over.server.rows ≡ some leased_row
unfolding lookup bytes_eq
there = refl

-- The server that takes the first rows.
take-All : (n : ℕ) (keys : List Bytes) (P : Bytes → Type 0) → All P keys → All P (take n keys)
take-All zero keys P all = tt
take-All (suc n) [] P all = tt
take-All (suc n) (key ∷ keys) P (here, all) = (here, take-All n keys P all)

take-few : (n : ℕ) (keys : List Bytes) → count (take n keys) ≤ n
unfolding count
take-few zero keys = omega arith
take-few (suc n) [] = omega arith
take-few (suc n) (key ∷ keys) = omega (arith, take-few n keys)

take-IsLimit : IsLimit (λ n keys. take n keys)
take-IsLimit = record { of_them = take-All; few = take-few }

sweep-slots_example :
    let (res, w') = sweep (λ n keys. take n keys) 10 unsure in
    ((key : Bytes) → slots w'.server key ≡ slots unsure.server key)
    × IsKeyed w'.server.rows
    × ((n : ℕ) → res ≡ ok n → n ≤ 10)
sweep-slots_example = sweep-slots (λ n keys. take n keys) take-IsLimit 10 unsure held-IsKeyed

complete_tx-Joined_example :
    let (res, w') = complete_tx order_key token_a (codes "done") day held in
    Joined order_key token_a (codes "done") day held.server res w'.server
    × IsStored w'
    × (w'.network ≡ [])
complete_tx-Joined_example =
    complete_tx-Joined order_key token_a (codes "done") day held refl held-IsStored

complete_tx_twice_example :
    (complete_tx order_key token_a
      (codes "again")
      day
      (complete_tx order_key token_a (codes "done") day held).1).0
    ≡ err already_completed
complete_tx_twice_example =
    complete_tx_twice order_key token_a (codes "done") (codes "again") day day held refl
      held-IsStored joins

reserve_abandoned_example :
    let (reply, w') = reserve takeover over in
    (reply ≡ (none, none))
    × (d : ℕ) × (stamp w'.server < d)
    × ((contents w').records order_key ≡ some (dated d takeover))
reserve_abandoned_example =
    reserve_abandoned takeover over leased_row (refl, refl) refl over-IsStored there refl
      (omega arith)
