-- ===== src/Core/Spec.antt =====
-- What store.go promises of a store, as operations on a map from keys to records that happen at
-- one instant: a record past its deadline is absent, `Complete` and `Release` compare tokens.
use idemlease.Base.{◌≤◌, ◌≡◌, Bytes, bytes_eq, if◌then◌else◌, Option, none, some}
pub mod Expiry
pub mod Agreement
use idemlease.Core.Time.{Time, Duration, add}
use idemlease.Core.Record.{completed, is_reserved, Record, expired}
use idemlease.Core.Store.{Sentinel, token_mismatch, not_found}

abbrev pub Records : Type 0
Records = Bytes → Option Record

-- The record if it is there at the instant.
unfoldable pub live : Time → Option Record → Option Record
live t none = none
live t (some r) = if expired r t then none else some r

unfoldable pub update : Records → Bytes → Option Record → Records
update a k o j = if bytes_eq k j then o else a j

-- `Reserve`, by the live record under the key.
unfoldable pub claim : Option Record → Record → Records → Option Record × Records
claim (some r) rec a = (some r, a)
claim none rec a = (none, update a rec.key (some rec))

-- `Reserve`: the record that stands in the way, if there is one, and the records afterwards.
unfoldable pub reserve_at : Time → Record → Records → Option Record × Records
unfolding claim
reserve_at t rec a = claim (live t (a rec.key)) rec a

-- The compare-and-set on the token of a reserved record.
unfoldable pub holds : Bytes → Option Record → Option Sentinel
holds token none = some not_found
holds token (some r) =
    if bytes_eq r.token token
    then (if is_reserved r.state then none else some not_found)
    else some token_mismatch

-- The entry under a key is replaced, unless an error stands in the way.
unfoldable pub transition :
    Option Sentinel → Bytes → Option Record → Records → Option Sentinel × Records
transition (some e) key o a = (some e, a)
transition none key o a = (none, update a key o)

unfoldable pub completed_record : Record → Bytes → Time → Record
completed_record r payload until = record r {
  state = completed;
  payload = payload;
  record_expires_at = until;
}

unfoldable pub completed_entry : Bytes → Time → Option Record → Option Record
unfolding completed_record
completed_entry payload until none = none
completed_entry payload until (some r) = some (completed_record r payload until)

unfoldable pub complete_at :
    Time → Bytes → Bytes → Bytes → Duration → Records → Option Sentinel × Records
unfolding completed_entry transition
complete_at t key token payload ttl a =
    let found = live t (a key) in
    transition (holds token found) key (completed_entry payload (add t ttl) found) a

unfoldable pub release_at : Time → Bytes → Bytes → Records → Option Sentinel × Records
unfolding transition
release_at t key token a = transition (holds token (live t (a key))) key none a

-- Two stores that no caller can tell apart from the instant on: the same records are live.
pub record Agrees (t : Time) (a b : Records) : Type 0 where
  pub same : (k : Bytes) (u : Time) → t ≤ u → live u (a k) ≡ live u (b k)
