-- ===== src/Core/Lease/Exclusive.antt =====
-- The guarantee of the README: at most one execution holds a valid lease of a key at any time.
use idemlease.Base.{◌-◌, ◌≤◌, ◌<◌, min, ◌≡◌, ◌≢◌, ◌∙◌, refl, ap, Bytes, bytes_eq_iff}
use idemlease.Base.{Option, none, some, inl, inr, Option-cases, arith}
use idemlease.Base.{List, [], ◌∷◌, All}
use idemlease.Base.Int.{pos}
use idemlease.Core.Time.{Time, Duration, max_duration}
use idemlease.Core.Record.{reserved, Record, expired}
use idemlease.Core.Store.{Result-cases, Sentinel, ok, Store, Runtime}
use idemlease.Core.Spec.{Records, live, update, holds, transition, complete_at, release_at}
use idemlease.Core.Spec.Expiry.{live-some, live_of_not_expired}
use idemlease.Core.Contract.{Moves, IsLawful}
use idemlease.Core.Lease.{
  Options, record_ttl, outcome, reject_in_flight, Decision, persist, discard, invalid_decision,
  begin, finish, hex_encode, new_token,
}
use idemlease.Core.Lease.Linear.{begin_at, begin-Linearized}
use idemlease.Core.Lease.Answers.{begin_in_flight}

-- A call of another goroutine or another process on the same store.
pub data Call : Type 0 where
  begin_call : Bytes → Bytes → Options → Call
  finish_call : Bytes → Bytes → Decision → Bytes → Options → Call

-- The calls, one after the other; their results are their callers' affair.
unfoldable pub run : {W : Type 0} → Store W → Runtime W → List Call → W → W
run s rt [] w = w
run s rt (begin_call key fp o ∷ calls) w = run s rt calls (begin s rt key fp o w).1
run s rt (finish_call key token d payload o ∷ calls) w =
    run s rt calls (finish s key token d payload o w).1

-- The call is no `Finish` under the lease in question.
abbrev pub Spares : Bytes → Bytes → Call → Type 0
Spares key token (begin_call k fp o) = Unit
Spares key token (finish_call k t d payload o) = (k ≡ key) → t ≢ token

update_other :
    (a : Records) (k key : Bytes) (o : Option Record) → k ≢ key → update a k o key ≡ a key
unfolding update
update_other a k key o ne = ground (arith, bytes_eq_iff k key)

transition_keeps :
    (e : Option Sentinel) (k key : Bytes) (o : Option Record) (a : Records)
    → (e ≡ none → k ≢ key)
    → (transition e k o a).1 key ≡ a key
unfolding transition
transition_keeps (some e) k key o a h = refl
transition_keeps none k key o a h = update_other a k key o (h refl)

holds-none :
    (token : Bytes) (r : Record) (t : Time) (a : Records) (k key : Bytes)
    → live t (a key) ≡ some r
    → k ≡ key
    → holds token (live t (a k)) ≡ none
    → token ≡ r.token
unfolding holds
holds-none token r t a k key held e h =
    let seen : holds token (some r) ≡ none = rw (e, held) at h in
    ground (arith, bytes_eq_iff r.token token)

complete_at_keeps :
    (t : Time) (k token payload : Bytes) (ttl : Duration) (a : Records) (key : Bytes) (r : Record)
    → live t (a key) ≡ some r
    → (k ≡ key → token ≢ r.token)
    → (complete_at t k token payload ttl a).1 key ≡ a key
unfolding complete_at
complete_at_keeps t k token payload ttl a key r held spares =
    transition_keeps _ k key _ a (λ h e. spares e (holds-none token r t a k key held e h))

release_at_keeps :
    (t : Time) (k token : Bytes) (a : Records) (key : Bytes) (r : Record)
    → live t (a key) ≡ some r
    → (k ≡ key → token ≢ r.token)
    → (release_at t k token a).1 key ≡ a key
unfolding release_at
release_at_keeps t k token a key r held spares =
    transition_keeps _ k key _ a (λ h e. spares e (holds-none token r t a k key held e h))

begin_at_keeps :
    (start t u : Time) (k fp : Bytes) (o : Options) (token : Bytes) (a : Records) (key : Bytes)
    (r : Record)
    → live t (a key) ≡ some r
    → (begin_at start t u k fp o token a).1 key ≡ a key
unfolding begin_at
begin_at_keeps start t u k fp o token a key r held = elim (Option-cases (live t (a k))) [
  | inr (q, there) ↦ rw there
  | inl free ↦ rw free (update_other a k key _ (λ e. ground (arith, held, free, ap a e)))
]

module _ {W : Type 0} (clock : W → Time) (contents : W → Records) (s : Store W) (rt : Runtime W)
    (law : IsLawful clock contents s rt) (key : Bytes) (r : Record) (st : r.state ≡ reserved) where
  abbrev pub Held : W → Type 0
  Held w = live (clock w) (contents w key) ≡ some r

  still_live :
      (t : Time) (o : Option Record) → o ≡ some r → t < r.lease_expires_at → live t o ≡ some r
  unfolding expired
  still_live t o e h = live_of_not_expired o t e (rw (st, expired) (ground arith))

  Moves-Held :
      (w w' : W) (a : Records)
      → Moves clock contents w a w'
      → a key ≡ contents w key
      → clock w' < r.lease_expires_at
      → Held w
      → Held w'
  Moves-Held w w' a m same h held =
      m.agrees.same key (clock w') (omega arith)
      ∙ still_live (clock w') (a key) (same ∙ (live-some _ (clock w) held).0) h

  pub begin_forward : (k fp : Bytes) (o : Options) (w : W) → clock w ≤ clock (begin s rt k fp o w).1
  unfolding begin new_token
  begin_forward k fp o w = elim (Result-cases (rt.rand w).0) [
    | inl (drawn, e) ↦
        let d = begin-Linearized clock contents s rt law k fp o w drawn e in
        omega (arith, d.begun, d.ordered, d.ended)
    | inr (x, e) ↦ rw e (law.rand_law w).forward
  ]

  pub finish_forward :
      (d : Decision) (k token payload : Bytes) (o : Options) (w : W)
      → clock w ≤ clock (finish s k token d payload o w).1
  unfolding finish
  finish_forward persist k token payload o w =
      (law.complete_law k token payload (record_ttl o) w).1.forward
  finish_forward discard k token payload o w = (law.release_law k token w).1.forward
  finish_forward (invalid_decision n) k token payload o w = omega arith

  pub run_forward : (calls : List Call) (w : W) → clock w ≤ clock (run s rt calls w)
  unfolding run
  run_forward [] w = omega arith
  run_forward (begin_call k fp o ∷ calls) w =
      omega (arith, begin_forward k fp o w, run_forward calls (begin s rt k fp o w).1)
  run_forward (finish_call k token d payload o ∷ calls) w = omega (
    arith,
    finish_forward d k token payload o w,
    run_forward calls (finish s k token d payload o w).1,
  )

  -- No `Begin` touches a held key.
  begin-Held :
      (k fp : Bytes) (o : Options) (w : W)
      → clock (begin s rt k fp o w).1 < r.lease_expires_at
      → Held w
      → Held (begin s rt k fp o w).1
  unfolding begin new_token
  begin-Held k fp o w h held = elim (Result-cases (rt.rand w).0) [
    | inl (drawn, e) ↦
        let w' = (begin s rt k fp o w).1 in
        let d = begin-Linearized clock contents s rt law k fp o w drawn e in
        let there = (live-some _ (clock w) held).0 in
        let met = still_live d.at (contents w key) there (omega (arith, d.ended, h)) in
        Moves-Held w w' _
          record { forward = omega (arith, d.begun, d.ordered, d.ended); agrees = d.effect }
          (begin_at_keeps d.start d.at (clock w') k fp o (hex_encode drawn) (contents w) key r met)
          h held
    | inr (x, e) ↦
        rw e (Moves-Held w (rt.rand w).1 (contents w) (law.rand_law w) refl (rw (e) at h) held)
  ]

  -- No `Finish` of another execution does either.
  finish-Held :
      (d : Decision) (k token payload : Bytes) (o : Options) (w : W)
      → (k ≡ key → token ≢ r.token)
      → clock (finish s k token d payload o w).1 < r.lease_expires_at
      → Held w
      → Held (finish s k token d payload o w).1
  unfolding finish
  finish-Held persist k token payload o w spares h held =
      let (e, w') = s.complete k token payload (record_ttl o) w in
      let met = still_live (clock w') (contents w key) (live-some _ (clock w) held).0 h in
      Moves-Held w w' _ (law.complete_law k token payload (record_ttl o) w).1
        (complete_at_keeps (clock w') k token payload (record_ttl o) (contents w) key r met spares)
        h held
  finish-Held discard k token payload o w spares h held =
      let (e, w') = s.release k token w in
      let met = still_live (clock w') (contents w key) (live-some _ (clock w) held).0 h in
      Moves-Held w w' _ (law.release_law k token w).1
        (release_at_keeps (clock w') k token (contents w) key r met spares) h held
  finish-Held (invalid_decision n) k token payload o w spares h held = held

  pub run-Held :
      (calls : List Call) (w : W)
      → All (Spares key r.token) calls
      → clock (run s rt calls w) < r.lease_expires_at
      → Held w
      → Held (run s rt calls w)
  unfolding run
  run-Held [] w spared h held = held
  run-Held (begin_call k fp o ∷ calls) w spared h held =
      let w' = (begin s rt k fp o w).1 in
      run-Held calls w' spared.1 h
        (begin-Held k fp o w (omega (arith, run_forward calls w', h)) held)
  run-Held (finish_call k token d payload o ∷ calls) w spared h held =
      let w' = (finish s k token d payload o w).1 in
      run-Held calls w' spared.1 h
        (finish-Held d k token payload o w spared.0 (omega (arith, run_forward calls w', h)) held)

  -- While a reservation of a key is valid, whatever `Begin` calls happen and whatever `Finish`
  -- calls under other tokens, any number of them and in any order, the reservation stays as it is,
  -- and a `Begin` on the key that ends within the lease is rejected as in flight: at most one
  -- execution holds a valid lease.
  pub at_most_one_lease :
      (calls : List Call) (w : W)
      → Held w
      → All (Spares key r.token) calls
      → (fingerprint : Bytes) (o : Options) (drawn : Bytes)
      → let w1 = run s rt calls w in
        (rt.rand w1).0 ≡ ok drawn
        → let (res, w2) = begin s rt key fingerprint o w1 in
          clock w2 < r.lease_expires_at
          → Held w1
            × (res
                ≡ ok (record (outcome reject_in_flight) {
                  retry_after = pos (min (r.lease_expires_at - clock w2) max_duration);
                }))
  at_most_one_lease calls w held spared fingerprint o drawn rand_ok h =
      let w1 = run s rt calls w in
      let w2 = (begin s rt key fingerprint o w1).1 in
      let early : clock w1 < r.lease_expires_at =
        omega (arith, begin_forward key fingerprint o w1, h) in
      let kept = run-Held calls w spared early held in
      (
        kept,
        (begin_in_flight clock contents s rt law key fingerprint o w1 drawn rand_ok r
            (live-some _ (clock w1) kept).0 st h).0,
      )
