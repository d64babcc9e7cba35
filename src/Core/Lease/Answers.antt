-- ===== src/Core/Lease/Answers.antt =====
-- What `Begin` answers over a lawful store, by the record that it meets.
use idemlease.Base.{◌-◌, ◌≤◌, ◌<◌, min, ◌≡◌, ◌≢◌, ◌∙◌, refl, sym, Bytes, bytes_eq, bytes_eq_iff}
use idemlease.Base.{false, none, some, inl, inr, Option-cases, Bool-cases, arith}
use idemlease.Base.Int.{pos}
use idemlease.Core.Time.{Time, add, max_duration}
use idemlease.Core.Record.{State, reserved, completed, invalid, Record, expired}
use idemlease.Core.Store.{Result, ok, Store, Runtime}
use idemlease.Core.Spec.{Records, Agrees, live, update}
use idemlease.Core.Spec.Expiry.{live-some, live-none, live_of_not_expired}
use idemlease.Core.Contract.{IsLawful}
use idemlease.Core.Lease.{
  Options, lease_ttl, Outcome, outcome, proceed, replay, reject_in_flight,
  reject_fingerprint_mismatch, answer, reservation, begin, hex_encode,
}
use idemlease.Core.Lease.Linear.{Linearized, begin_at, begin-Linearized}

-- A record that is live has a state, and is answered.
answer_ok :
    (st : State) (r : Record) (fingerprint : Bytes) (t u : Time)
    → r.state ≡ st
    → expired r t ≡ false
    → (out : Outcome) × (answer st r fingerprint u ≡ ok out)
unfolding answer expired
answer_ok reserved r fp t u e h = (_, refl)
answer_ok completed r fp t u e h = elim (Bool-cases (bytes_eq r.fingerprint fp)) [
  | inl same ↦ (outcome_of_replay, rw same)
  | inr other ↦ (outcome reject_fingerprint_mismatch, rw other)
]
  where
    outcome_of_replay : Outcome
    outcome_of_replay = record (outcome replay) { payload = r.payload }
answer_ok (invalid n) r fp t u e h = ground arith

-- The record that is there at the end of the call and not expired is what the call met.
Linearized-met :
    {lo hi : Time} {a b : Records} {key fingerprint : Bytes} {o : Options} {token : Bytes}
    {res : Result Outcome} {r : Record}
    → Linearized lo hi a b key fingerprint o token res
    → a key ≡ some r
    → expired r hi ≡ false
    → (res ≡ answer r.state r fingerprint hi) × Agrees hi b a
unfolding begin_at
Linearized-met {hi = hi} d e h =
    let met = (sym d.still) ∙ live_of_not_expired _ hi e h in
    (rw met at d.result, rw met at d.effect)

Linearized-free :
    {lo hi : Time} {a b : Records} {key fingerprint : Bytes} {o : Options} {token : Bytes}
    {res : Result Outcome}
    → Linearized lo hi a b key fingerprint o token res
    → live lo (a key) ≡ none
    → (start : Time) × (lo ≤ start)
      × (start ≤ hi)
      × (res ≡ ok (record (outcome proceed) { token = token }))
      × Agrees hi b
          (update a key (some (reservation key fingerprint token (add start (lease_ttl o)))))
unfolding begin_at
Linearized-free {a = a} {key = key} d free =
    let met = live-none (a key) {u = d.at} (omega (arith, d.begun, d.ordered)) free in
    (d.start, d.begun, omega (arith, d.ordered, d.ended), rw met at d.result, rw met at d.effect)

Linearized-total :
    {lo hi : Time} {a b : Records} {key fingerprint : Bytes} {o : Options} {token : Bytes}
    {res : Result Outcome}
    → Linearized lo hi a b key fingerprint o token res
    → (out : Outcome) × (res ≡ ok out)
unfolding begin_at
Linearized-total {hi = hi} {a = a} {key = key} {fingerprint = fp} d =
    elim (Option-cases (live d.at (a key))) [
      | inl free ↦ (_, rw free at d.result)
      | inr (r, held) ↦
          let open_record = (live-some _ d.at held).1 in
          let (out, e) = answer_ok r.state r fp d.at hi refl open_record in
          (out, (rw held at d.result) ∙ e)
    ]

module _ {W : Type 0} (clock : W → Time) (contents : W → Records) (s : Store W) (rt : Runtime W)
    (law : IsLawful clock contents s rt) (key fingerprint : Bytes) (o : Options) (w : W)
    (drawn : Bytes) (rand_ok : (rt.rand w).0 ≡ ok drawn) where
  -- Over a store that keeps its contract `Begin` never fails once its token is drawn: the three
  -- attempts are enough, and neither "contract violation" error is reached.
  pub begin_total : (out : Outcome) × ((begin s rt key fingerprint o w).0 ≡ ok out)
  begin_total =
      Linearized-total (begin-Linearized clock contents s rt law key fingerprint o w drawn rand_ok)

  -- If no record is live under the key when `Begin` is called, it proceeds with the drawn token, and
  -- the store then holds exactly the reservation under that key, its lease counted from an instant
  -- of the call; all other keys are as before.
  pub begin_free :
      live (clock w) (contents w key) ≡ none
      → let (res, w') = begin s rt key fingerprint o w in
        (start : Time) × (clock w ≤ start)
        × (start ≤ clock w')
        × (res ≡ ok (record (outcome proceed) { token = hex_encode drawn }))
        × Agrees (clock w') (contents w') (
            update
              (contents w)
              key
              (some (reservation key fingerprint (hex_encode drawn) (add start (lease_ttl o)))))
  begin_free free =
      Linearized-free (begin-Linearized clock contents s rt law key fingerprint o w drawn rand_ok)
        free

  -- While another execution's reservation is valid, `Begin` rejects the request as in flight,
  -- whatever its fingerprint: it reports the rest of the lease, which is positive, and changes no
  -- record.
  pub begin_in_flight :
      (r : Record)
      → contents w key ≡ some r
      → r.state ≡ reserved
      → let (res, w') = begin s rt key fingerprint o w in
        clock w' < r.lease_expires_at
        → let left = min (r.lease_expires_at - clock w') max_duration in
          (res ≡ ok (record (outcome reject_in_flight) { retry_after = pos left }))
          × (0 < left)
          × Agrees (clock w') (contents w') (contents w)
  unfolding answer expired
  begin_in_flight r e st h =
      let w' = (begin s rt key fingerprint o w).1 in
      let open_record : expired r (clock w') ≡ false = rw (st, expired) (ground arith) in
      let (met, same) =
        Linearized-met (begin-Linearized clock contents s rt law key fingerprint o w drawn rand_ok)
          e open_record in
      (met ∙ rw st (ground arith), omega arith, same)

  -- A completed record that has not expired is replayed to a request with its fingerprint, and any
  -- other request is rejected; no record changes.
  pub begin_completed :
      (r : Record)
      → contents w key ≡ some r
      → r.state ≡ completed
      → let (res, w') = begin s rt key fingerprint o w in
        clock w' < r.record_expires_at
        → (r.fingerprint ≡ fingerprint → res ≡ ok (record (outcome replay) { payload = r.payload }))
          × (r.fingerprint ≢ fingerprint → res ≡ ok (outcome reject_fingerprint_mismatch))
          × Agrees (clock w') (contents w') (contents w)
  unfolding answer expired
  begin_completed r e st h =
      let w' = (begin s rt key fingerprint o w).1 in
      let open_record : expired r (clock w') ≡ false = rw (st, expired) (ground arith) in
      let (met, same) =
        Linearized-met (begin-Linearized clock contents s rt law key fingerprint o w drawn rand_ok)
          e open_record in
      let print = bytes_eq_iff r.fingerprint fingerprint in
      (
        (λ eq. met ∙ rw (st, answer) (rw (print.1 eq))),
        (λ ne. met ∙ rw (st, answer) (ground (arith, print))),
        same,
      )
