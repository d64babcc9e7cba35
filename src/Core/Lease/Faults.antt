-- ===== src/Core/Lease/Faults.antt =====
-- `Begin` over a store that breaks its contract.
use idemlease.Base.{◌≡◌, zero, suc, ℕ, Bytes, true, some}
use idemlease.Core.Time.{Time, add}
use idemlease.Core.Record.{Record, expired}
use idemlease.Core.Store.{Error, ok, err, Store, Runtime, is, already_exists, expired_existing}
use idemlease.Core.Lease.{
  Options, lease_ttl, reservation, hex_encode, examine, react, attempt, begin_loop, new_token,
  begin,
}

module _ {W : Type 0} (s : Store W) (rt : Runtime W) where
  -- A store that breaks its contract.
  abbrev pub IsStubborn : Type 0
  IsStubborn =
      (rec : Record) (w : W)
      → (r : Record) × (e : Error) × ((s.reserve rec w).0 ≡ (some r, some e))
        × (is e already_exists ≡ true)
        × ((t : Time) → expired r t ≡ true)

  stubborn_loop :
      IsStubborn
      → (left : ℕ) (key fingerprint : Bytes) (o : Options) (token : Bytes) (w : W)
      → (begin_loop s rt left key fingerprint o token w).0 ≡ err expired_existing
  unfolding begin_loop attempt react examine
  stubborn_loop bad zero key fp o token w =
      let (t, w1) = rt.now w in
      let (r, e, reply, exists, past) = bad (reservation key fp token (add t (lease_ttl o))) w1 in
      rw (reply, exists, past)
  stubborn_loop bad (suc left) key fp o token w =
      let (t, w1) = rt.now w in
      let rec = reservation key fp token (add t (lease_ttl o)) in
      let (r, e, reply, exists, past) = bad rec w1 in
      let w3 = (rt.now (s.reserve rec w1).1).1 in
      rw (reply, exists, past) (stubborn_loop bad left key fp o token w3)

  -- A store that keeps returning an expired record as existing does not hold `Begin` up: it ends
  -- with the error of a contract violation.
  pub begin_stubborn :
      IsStubborn
      → (key fingerprint : Bytes) (o : Options) (w : W) (drawn : Bytes) → (rt.rand w).0 ≡ ok drawn
      → (begin s rt key fingerprint o w).0 ≡ err expired_existing
  unfolding begin new_token
  begin_stubborn bad key fp o w drawn e =
      rw e (stubborn_loop bad 2 key fp o (hex_encode drawn) (rt.rand w).1)
