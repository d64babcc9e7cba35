-- ===== src/Core/Lease/Finishing.antt =====
-- What `Finish` does over a lawful store: it commits under the lease, or reports the lease lost.
use idemlease.Base.{◌<◌, ◌≡◌, ◌⊎◌, refl, Bytes, bytes_eq, bytes_eq_iff, bytes_eq_complete}
use idemlease.Base.{true, false, Option, none, some, inl, inr, Bool-cases, arith}
use idemlease.Core.Time.{Time, add}
use idemlease.Core.Record.{reserved, is_reserved, Record, expired}
use idemlease.Core.Store.{Sentinel, Error, ok, Store, Runtime, token_mismatch, not_found}
use idemlease.Core.Spec.{
  Records, Agrees, live, update, holds, completed_record, complete_at, release_at,
}
use idemlease.Core.Spec.Expiry.{live_of_not_expired}
use idemlease.Core.Contract.{Signals, IsLawful}
use idemlease.Core.Lease.{Options, record_ttl, persist, discard, finish, normalize}

-- The live reserved record under the key carries the token.
holds_own :
    (t : Time) (r : Record) (token : Bytes) {a : Option Record}
    → a ≡ some r
    → r.state ≡ reserved
    → r.token ≡ token
    → t < r.lease_expires_at
    → (live t a ≡ some r) × (holds token (some r) ≡ none)
unfolding holds expired
holds_own t r token e st tok h =
    let open_record : expired r t ≡ false = rw (st, expired) (ground arith) in
    (live_of_not_expired _ t e open_record, rw (bytes_eq_complete r.token token tok, st))

-- No live reservation under the key has the token: it expired, was released or completed, or
-- another execution took the key over.
abbrev pub IsLost : Time → Bytes → Option Record → Type 0
IsLost t token o = (r : Record) → live t o ≡ some r → r.token ≡ token → is_reserved r.state ≡ false

holds_lost :
    (token : Bytes) (found : Option Record)
    → ((r : Record) → found ≡ some r → r.token ≡ token → is_reserved r.state ≡ false)
    → (e : Sentinel) × (holds token found ≡ some e) × ((e ≡ token_mismatch) ⊎ (e ≡ not_found))
unfolding holds
holds_lost token none lost = (_, refl, inr refl)
holds_lost token (some r) lost = elim (Bool-cases (bytes_eq r.token token)) [
  | inr other ↦ (token_mismatch, rw other, inl refl)
  | inl same ↦ (not_found, rw (same, lost r refl ((bytes_eq_iff r.token token).0 same)), inr refl)
]

normalize_lost :
    (e : Option Error) (x : Sentinel)
    → (x ≡ token_mismatch) ⊎ (x ≡ not_found)
    → Signals (some x) e
    → normalize e ≡ ok true
unfolding normalize
normalize_lost e x (inl m) (y, is_some, is_x) = ground arith
normalize_lost e x (inr m) (y, is_some, is_x) = ground arith

module _ {W : Type 0} (clock : W → Time) (contents : W → Records) (s : Store W) (rt : Runtime W)
    (law : IsLawful clock contents s rt) (key token payload : Bytes) (o : Options) (w : W) where
  -- Under its own valid lease `Finish` with Persist succeeds: the record becomes completed with the
  -- payload, to be replayed until the record limit counted from an instant of the call, and the
  -- other keys are as before. With Discard it succeeds too, and nothing is left under the key.
  pub finish_own :
      (r : Record)
      → contents w key ≡ some r
      → r.state ≡ reserved
      → r.token ≡ token
      → let (kept, w1) = finish s key token persist payload o w in
        let (dropped, w2) = finish s key token discard payload o w in
        (clock w1 < r.lease_expires_at
          → (kept ≡ ok false)
            × Agrees (clock w1) (contents w1) (
                update
                  (contents w)
                  key
                  (some (completed_record r payload (add (clock w1) (record_ttl o))))))
        × (clock w2 < r.lease_expires_at
            → (dropped ≡ ok false) × Agrees (clock w2) (contents w2) (update (contents w) key none))
  unfolding finish complete_at release_at
  finish_own r e st tok = (
    (λ h.
        let w1 = (s.complete key token payload (record_ttl o) w).1 in
        let (met, holding) = holds_own (clock w1) r token e st tok h in
        let (done, m) =
          rw (met, holding) at (law.complete_law key token payload (record_ttl o) w) in
        (rw done, m.agrees)),
    (λ h.
        let w2 = (s.release key token w).1 in
        let (met, holding) = holds_own (clock w2) r token e st tok h in
        let (done, m) = rw (met, holding) at (law.release_law key token w) in (rw done, m.agrees)),
  )

  -- Without a valid lease of its own `Finish` reports the lease lost, with Persist and with Discard,
  -- and changes no record: a result of another execution is never overwritten or released.
  pub finish-IsLost :
      let (kept, w1) = finish s key token persist payload o w in
      let (dropped, w2) = finish s key token discard payload o w in
      (IsLost (clock w1) token (contents w key)
        → (kept ≡ ok true) × Agrees (clock w1) (contents w1) (contents w))
      × (IsLost (clock w2) token (contents w key)
          → (dropped ≡ ok true) × Agrees (clock w2) (contents w2) (contents w))
  unfolding finish complete_at release_at
  finish-IsLost = (
    (λ lost.
        let w1 = (s.complete key token payload (record_ttl o) w).1 in
        let (x, held, which) = holds_lost token (live (clock w1) (contents w key)) lost in
        let (sign, m) = rw held at (law.complete_law key token payload (record_ttl o) w) in
        (normalize_lost _ x which sign, m.agrees)),
    (λ lost.
        let w2 = (s.release key token w).1 in
        let (x, held, which) = holds_lost token (live (clock w2) (contents w key)) lost in
        let (sign, m) = rw held at (law.release_law key token w) in
        (normalize_lost _ x which sign, m.agrees)),
  )
