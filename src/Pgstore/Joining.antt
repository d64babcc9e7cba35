-- ===== src/Pgstore/Joining.antt =====
-- `CompleteTx`: the transition inside the caller's transaction, which sees the table at one instant.
use idemlease.Base.{
  ℕ, ◌==◌, ◌≡◌, ◌≢◌, refl, sym, ◌∙◌, ap, inl, inr, Bytes, bytes_eq, bytes_eq_iff, bytes_eq_refl,
  if◌then◌else◌, Bool, true, false, Bool-cases, ◌&&◌, Option, none, some, [], Option-cases,
}
use mathlib.Core.Path.{subst}
use idemlease.Base.Dict.{lookup}
use idemlease.Core.Time.{Duration, zero_time}
use idemlease.Core.Record.{Record, completed}
use idemlease.Core.Store.{Result, ok, err, Sentinel, not_found}
use idemlease.Core.Spec.{update, holds, completed_record}
use idemlease.Core.Shared.{dated, completed_now}
use idemlease.Core.Shared.Fencing.{holds_own}
use idemlease.Core.Node.{Node, send_delivered}
use idemlease.Pgstore.{
  complete_tx, on_tx_affected, tx_failure, already_completed, record_ttl_millis,
}
use idemlease.Pgstore.Rows.{
  Row, Table, stamp, after_ms, is_live, q_complete, q_classify_tx, live_holder, state_completed,
}
use idemlease.Pgstore.Slots.{due, record_of, slot, slots, IsWritten, AreWritten, IsStored}
use idemlease.Pgstore.Transitions.{Affects, changed, unchanged, q_complete-Affects}
use idemlease.Pgstore.Reserving.{at_least_one_ms_pos}

-- What `CompleteTx` says: of the record as the transaction sees it, and what it did.
pub data Joined (key token payload : Bytes) (ttl : Duration) (s : Table)
    : Result Bool → Table → Type 0 where
  joined :
      {s' : Table}
      → holds token (slots s key) ≡ none
      → ((j : Bytes)
          → slots s' j
            ≡ update
                (slots s)
                key
                (completed_now payload (after_ms (record_ttl_millis ttl) s) (slots s key))
                j)
      → Joined key token payload ttl s (ok false) s'
  repeated :
      (r : Record)
      → slots s key ≡ some r
      → r.state ≡ completed
      → r.token ≡ token
      → Joined key token payload ttl s (err already_completed) s
  gone : slots s key ≡ none → Joined key token payload ttl s (ok true) s
  taken :
      (r : Record)
      → slots s key ≡ some r
      → r.token ≢ token
      → Joined key token payload ttl s (ok true) s

tx_taken :
    (key token payload : Bytes) (ttl : Duration) (s : Table) (r : Row) (b : Bool)
    → slots s key ≡ some (dated (due r) (record_of key r))
    → r.token ≢ token
    → Joined key token payload ttl s (if b && false then err already_completed else ok true) s
unfolding record_of
tx_taken key token payload ttl s r true there differs =
    taken (dated (due r) (record_of key r)) there differs
tx_taken key token payload ttl s r false there differs =
    taken (dated (due r) (record_of key r)) there differs

tx_failure-Joined :
    (key token payload : Bytes) (ttl : Duration) (s : Table) (e : Sentinel)
    → AreWritten s
    → holds token (slots s key) ≡ some e
    → Joined key token payload ttl s (tx_failure token (ok (q_classify_tx key s))) s
unfolding q_classify_tx live_holder tx_failure slot record_of IsWritten holds
tx_failure-Joined key token payload ttl s e kept lost = elim (Option-cases (lookup key s.rows)) [
  | inl free ↦ rw free (gone (rw free refl))
  | inr (r, there) ↦ elim (Bool-cases (is_live (stamp s) r)) [
    | inr over ↦ rw (there, over) (gone (rw (there, over) refl))
    | inl lives ↦ elim (Bool-cases (bytes_eq r.token token)) [
      | inr differs ↦
          rw (there, lives, differs)
            (tx_taken key token payload ttl s r (r.state == state_completed)
              (rw (there, lives) refl)
              (λ same. let yes = (bytes_eq_iff r.token token).1 same in cc))
      | inl own ↦ elim (subst IsWritten there (kept key)) [
        | inl one ↦ let seen : none ≡ some e = rw (there, lives, one, own) at lost in cc
        | inr (two, u, x) ↦
            rw (there, lives, two, own)
              (repeated (dated (due r) (record_of key r)) (rw (there, lives) refl) (rw two refl)
                ((bytes_eq_iff r.token token).0 own))
      ]
    ]
  ]
]

on_tx_affected-Joined :
    (key token payload : Bytes) (ttl : Duration) (w : Node Table) (s : Table) {n : ℕ} {s' : Table}
    → w.network ≡ []
    → w.server ≡ s'
    → AreWritten s
    → AreWritten s'
    → Affects key token
        (completed_now payload (after_ms (record_ttl_millis ttl) s) (slots s key))
        s
        n
        s'
    → let (res, w') = on_tx_affected key token (ok n) w in
      Joined key token payload ttl s res w'.server × IsStored w' × (w'.network ≡ [])
unfolding on_tx_affected
on_tx_affected-Joined key token payload ttl w s quiet at kept kept' (changed own still left) =
    (rw at (joined own left), rw at kept', quiet)
on_tx_affected-Joined key token payload ttl w s quiet at kept kept' (unchanged e lost) =
    rw (send_delivered (λ u. (q_classify_tx key u, u)) w quiet, at)
      (tx_failure-Joined key token payload ttl s e kept lost, kept, quiet)

-- In a transaction whose statements get through, where each row is reserved, or completed with a
-- deadline: `leaseLost` is false where the transition is now part of the transaction, which takes a
-- reserved record under the token, true where there is no live record or one under another token,
-- and `ErrAlreadyCompleted` means a completed record under the token; unless the transition took
-- place, the table is unchanged. The rows stay such rows.
pub complete_tx-Joined :
    (key token payload : Bytes) (ttl : Duration) (w : Node Table)
    → w.network ≡ []
    → IsStored w
    → let (res, w') = complete_tx key token payload ttl w in
      Joined key token payload ttl w.server res w'.server × IsStored w' × (w'.network ≡ [])
unfolding complete_tx
complete_tx-Joined key token payload ttl w quiet kept =
    let f = q_complete key token payload (record_ttl_millis ttl) in
    let (kept', affects) =
      q_complete-Affects key token payload (record_ttl_millis ttl) w.server
        (at_least_one_ms_pos ttl) kept in
    rw (send_delivered f w quiet) (
      on_tx_affected-Joined key token payload ttl (record w { server = (f w.server).1 }) w.server
        quiet refl kept kept' affects)

abbrev lost_of : Result Bool → Bool
lost_of (ok b) = b
lost_of (err e) = false

abbrev token_of : Option Record → Bytes
token_of none = []
token_of (some r) = r.token

-- What the same instant holds after a transition that took place.
Joined-slot :
    (key token payload : Bytes) (ttl : Duration) (s s' : Table) (res : Result Bool)
    → Joined key token payload ttl s res s'
    → res ≡ ok false
    → (r : Record) × (slots s' key
        ≡ some (dated (after_ms (record_ttl_millis ttl) s) (completed_record r payload zero_time)))
      × (r.token ≡ token)
unfolding completed_now update
Joined-slot key token payload ttl s s' res (joined own left) e =
    let (r, there, is_open, same) = holds_own token (slots s key) own in
    (r, left key ∙ rw (bytes_eq_refl key, there) refl, same)
Joined-slot key token payload ttl s s' res (repeated r there done same) e = cc
Joined-slot key token payload ttl s s' res (gone free) e =
    let no : true ≡ false = ap lost_of e in cc
Joined-slot key token payload ttl s s' res (taken r there differs) e =
    let no : true ≡ false = ap lost_of e in cc

twice :
    (key token payload payload' : Bytes) (ttl : Duration) (d : ℕ) (s s' : Table) (res : Result Bool)
    (r : Record)
    → slots s key ≡ some (dated d (completed_record r payload zero_time))
    → r.token ≡ token
    → Joined key token payload' ttl s res s'
    → res ≡ err already_completed
unfolding completed_record holds
twice key token payload payload' ttl d s s' res r there same (joined own left) =
    let (x, there', is_open, _) = holds_own token (slots s key) own in
    let seen : some not_found ≡ none = rw (there, (bytes_eq_iff r.token token).1 same) at own in cc
twice key token payload payload' ttl d s s' res r there same (repeated x there' done own) = refl
twice key token payload payload' ttl d s s' res r there same (gone free) = cc
twice key token payload payload' ttl d s s' res r there same (taken x there' differs) =
    elim (differs (ap token_of (sym there' ∙ there) ∙ same)) [ ]

-- A second `CompleteTx` under the same token in the same transaction is told so, whatever its payload
-- and TTL, where the statements get through.
pub complete_tx_twice :
    (key token payload payload' : Bytes) (ttl ttl' : Duration) (w : Node Table)
    → w.network ≡ []
    → IsStored w
    → (complete_tx key token payload ttl w).0 ≡ ok false
    → (complete_tx key token payload' ttl' (complete_tx key token payload ttl w).1).0
      ≡ err already_completed
complete_tx_twice key token payload payload' ttl ttl' w quiet kept first =
    let w1 = (complete_tx key token payload ttl w).1 in
    let (did, kept1, quiet1) = complete_tx-Joined key token payload ttl w quiet kept in
    let (r, there, same) = Joined-slot key token payload ttl w.server w1.server _ did first in
    let (again, _, _) = complete_tx-Joined key token payload' ttl' w1 quiet1 kept1 in
    twice key token payload payload' ttl' _ w1.server _ _ r there same again
