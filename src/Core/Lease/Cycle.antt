-- ===== src/Core/Lease/Cycle.antt =====
-- The whole life of a key over a lawful store: reserved, completed, replayed; and released again.
use idemlease.Base.{◌≤◌, ◌<◌, ◌≡◌, ◌≢◌, ◌∙◌, refl, ap, Bytes, bytes_eq_refl}
use idemlease.Base.{true, false, Option, none, some, List, All, arith, Bool-cases, inl, inr}
use idemlease.Base.Int.{ℤ, pos, negsuc, is_pos}
use idemlease.Core.Time.{Time, add}
use idemlease.Core.Record.{Record, expired}
use idemlease.Core.Store.{ok, Store, Runtime}
use idemlease.Core.Spec.{Records, live, update, completed_record}
use idemlease.Core.Spec.Expiry.{live-some, live_of_not_expired}
use idemlease.Core.Contract.{IsLawful}
use idemlease.Core.Lease.{
  Options, lease_ttl, record_ttl, outcome, proceed, replay, reject_fingerprint_mismatch,
  reservation, persist, discard, begin, finish, hex_encode,
}
use idemlease.Core.Lease.Answers.{begin_free, begin_completed}
use idemlease.Core.Lease.Finishing.{finish_own}
use idemlease.Core.Lease.Exclusive.{
  Call, Spares, run, run-Held, finish_forward, run_forward, begin_forward,
}

add_mono : (d : ℤ) (t u : Time) → is_pos d ≡ true → t ≤ u → add t d ≤ add u d
add_mono (pos n) t u p h = omega arith
add_mono (negsuc n) t u p h = cc

-- A limit is positive, whatever the options say.
pub lease_ttl_pos : (o : Options) → is_pos (lease_ttl o) ≡ true
unfolding lease_ttl
lease_ttl_pos o = elim (Bool-cases (is_pos o.lease_ttl)) [ inl p ↦ rw p p | inr n ↦ rw n ]

update_self : (a : Records) (key : Bytes) (o : Option Record) → update a key o key ≡ o
unfolding update
update_self a key o = rw (bytes_eq_refl key)

live_nothing : (t : Time) → live t none ≡ none
unfolding live
live_nothing t = refl

module _ {W : Type 0} (clock : W → Time) (contents : W → Records) (s : Store W) (rt : Runtime W)
    (law : IsLawful clock contents s rt) (key fingerprint : Bytes) (o : Options) (w : W)
    (drawn : Bytes) (rand_ok : (rt.rand w).0 ≡ ok drawn)
    (free : live (clock w) (contents w key) ≡ none) (calls : List Call)
    (spared : All (Spares key (hex_encode drawn)) calls) where
  abbrev begun : W
  begun = (begin s rt key fingerprint o w).1

  abbrev ran : W
  ran = run s rt calls begun

  -- The lease taken by `begin` stands after the other executions' calls.
  lease_stands :
      clock ran < add (clock w) (lease_ttl o)
      → (lease : Time) × (add (clock w) (lease_ttl o) ≤ lease)
        × (contents ran key ≡ some (reservation key fingerprint (hex_encode drawn) lease))
  unfolding expired
  lease_stands h =
      let (start, late, early, res, agrees) =
        begin_free clock contents s rt law key fingerprint o w drawn rand_ok free in
      let lease = add start (lease_ttl o) in
      let rec = reservation key fingerprint (hex_encode drawn) lease in
      let longer = add_mono (lease_ttl o) (clock w) start (lease_ttl_pos o) late in
      let order = run_forward clock contents s rt law key rec refl calls begun in
      let fresh : expired rec (clock begun) ≡ false = ground (arith, order, h, longer) in
      let held : live (clock begun) (contents begun key) ≡ some rec =
        agrees.same key (clock begun) (omega arith)
        ∙ live_of_not_expired _ (clock begun) (update_self (contents w) key (some rec)) fresh in
      (
        lease,
        longer,
        (live-some _ (clock ran) (
            run-Held clock contents s rt law key rec refl calls begun spared
              (omega (arith, h, longer)) held)).0,
      )

  -- A key is taken by `Begin`, other executions make any calls but a `Finish` with its token, its
  -- execution finishes within the lease limit with Persist, and later, before the record limit has
  -- passed, some request comes with the key: the finish succeeds, the same fingerprint replays the
  -- payload, and another fingerprint is rejected.
  pub persisted_is_replayed :
      (payload : Bytes) (o' : Options)
      → let (lost, done) = finish s key (hex_encode drawn) persist payload o ran in
        clock done < add (clock w) (lease_ttl o)
        → (print drawn' : Bytes) → (rt.rand done).0 ≡ ok drawn'
        → let (res, w') = begin s rt key print o' done in
          clock w' < add (clock done) (record_ttl o)
          → (lost ≡ ok false)
            × (fingerprint ≡ print → res ≡ ok (record (outcome replay) { payload = payload }))
            × (fingerprint ≢ print → res ≡ ok (outcome reject_fingerprint_mismatch))
  unfolding completed_record expired
  persisted_is_replayed payload o' h print drawn' rand' h' =
      let token = hex_encode drawn in
      let done = (finish s key token persist payload o ran).1 in
      let early =
        finish_forward clock contents s rt law key (reservation key fingerprint token 0) refl
          persist key token payload o ran in
      let (lease, longer, there) = lease_stands (omega (arith, h, early)) in
      let rec = reservation key fingerprint token lease in
      let (kept, agrees) =
        (finish_own clock contents s rt law key token payload o ran rec there refl refl).0
          (omega (arith, h, longer)) in
      let saved = completed_record rec payload (add (clock done) (record_ttl o)) in
      let order = begin_forward clock contents s rt law key rec refl key print o' done in
      let fresh : expired saved (clock done) ≡ false = ground (arith, order, h') in
      let met : live (clock done) (contents done key) ≡ some saved =
        agrees.same key (clock done) (omega arith)
        ∙ live_of_not_expired _ (clock done) (update_self (contents ran) key (some saved)) fresh in
      let (same, other, _) =
        begin_completed clock contents s rt law key print o' done drawn' rand' saved
          (live-some _ (clock done) met).0 refl h' in
      (kept, same, other)

  -- With Discard instead the key is free again: the next `Begin` proceeds with its own token, with
  -- whatever fingerprint.
  pub discarded_is_free :
      (payload : Bytes) (o' : Options)
      → let (lost, done) = finish s key (hex_encode drawn) discard payload o ran in
        clock done < add (clock w) (lease_ttl o)
        → (print drawn' : Bytes) → (rt.rand done).0 ≡ ok drawn'
        → (lost ≡ ok false)
          × ((begin s rt key print o' done).0
              ≡ ok (record (outcome proceed) { token = hex_encode drawn' }))
  discarded_is_free payload o' h print drawn' rand' =
      let token = hex_encode drawn in
      let done = (finish s key token discard payload o ran).1 in
      let rec0 = reservation key fingerprint token 0 in
      let early =
        finish_forward clock contents s rt law key rec0 refl discard key token payload o ran in
      let (lease, longer, there) = lease_stands (omega (arith, h, early)) in
      let rec = reservation key fingerprint token lease in
      let (dropped, agrees) =
        (finish_own clock contents s rt law key token payload o ran rec there refl refl).1
          (omega (arith, h, longer)) in
      let gone : live (clock done) (contents done key) ≡ none =
        agrees.same key (clock done) (omega arith)
        ∙ ap (live (clock done)) (update_self (contents ran) key none)
        ∙ live_nothing (clock done) in
      let (_, _, _, res, _) =
        begin_free clock contents s rt law key print o' done drawn' rand' gone in
      (dropped, res)
