-- ===== src/Core/Shared/Begin.antt =====
-- idemlease.go, `Begin` over a shared store.
use idemlease.Base.{
  ℕ, ◌+◌, ◌*◌, ◌≤◌, zero, suc, arith, ◌≡◌, ◌≢◌, refl, ◌∙◌, sym, ap, inl, inr, Bytes, bytes_eq,
  bytes_eq_iff, false, Bool-cases, Option, none, some, Option-cases,
}
use idemlease.Base.Monad.{M}
use idemlease.Core.Time.{Time, Duration, add, sub, at_least_one_ms}
use idemlease.Core.Record.{State, Record, reserved, completed, invalid, expired}
use idemlease.Core.Store.{Result-cases, Error, Result, ok, err, Store, Runtime, is, already_exists}
use idemlease.Core.Spec.{update, claim}
use idemlease.Core.Lease.{
  Outcome, outcome, proceed, replay, reject_in_flight, reject_fingerprint_mismatch, Options,
  lease_ttl, reservation, answer, new_token, examine, react, attempt, begin_loop, hex_encode, begin,
}
use idemlease.Core.Shared.{View, bare, dated, Fades, Fades-trans, reserve_now, Reserved, IsShared}

-- The clock that the store reads too, and a random source; they leave the records to time.
pub record IsRuntime {W : Type 0} (clock : W → Time) (Inv : W → Type 0) (slots : W → View)
    (rt : Runtime W) : Type 0 where
  pub now_law :
      (w : W)
      → Inv w
      → Inv (rt.now w).1
        × Fades (slots w) (slots (rt.now w).1)
        × (clock (rt.now w).1 ≡ (rt.now w).0)
        × (clock w ≤ clock (rt.now w).1)
  pub rand_law :
      (w : W)
      → Inv w
      → Inv (rt.rand w).1 × Fades (slots w) (slots (rt.rand w).1) × (clock w ≤ clock (rt.rand w).1)

-- What an outcome says of the record at one instant, and what it makes of the records. A lease that is
-- given ends on the server when it does for the client: `start` and `t` are readings of its clock
-- between `from` and `to`.
pub data Given (ticks : ℕ) (ttl : Duration) (from to : Time) (key fingerprint : Bytes) (a : View)
    : Outcome → View → Type 0 where
  taken :
      (token : Bytes) (start t : Time)
      → from ≤ start
      → start ≤ t
      → t ≤ to
      → a.records key ≡ none
      → Given ticks ttl from to key fingerprint a
          (record (outcome proceed) { token = token })
          (record a {
            records = update a.records key (
                some (
                  dated
                    (a.time + at_least_one_ms (sub (add start ttl) t) * ticks)
                    (reservation key fingerprint token (add start ttl))));
          })
  in_flight :
      (r : Record) (after : Duration)
      → a.records key ≡ some r
      → r.state ≡ reserved
      → Given ticks ttl from to key fingerprint a
          (record (outcome reject_in_flight) { retry_after = after })
          a
  replayed :
      (r : Record) (payload : Bytes)
      → a.records key ≡ some r
      → r.state ≡ completed
      → r.fingerprint ≡ fingerprint
      → r.payload ≡ payload
      → Given ticks ttl from to key fingerprint a (record (outcome replay) { payload = payload }) a
  mismatched :
      (r : Record)
      → a.records key ≡ some r
      → r.state ≡ completed
      → r.fingerprint ≢ fingerprint
      → Given ticks ttl from to key fingerprint a (outcome reject_fingerprint_mismatch) a

-- The outcome, if there is one, was given at an instant between.
abbrev pub Begun :
    ℕ → Duration → Time → Time → Bytes → Bytes → Result Outcome → View → View → Type 0
Begun ticks ttl from to key fingerprint (err e) before after = Unit
Begun ticks ttl from to key fingerprint (ok out) before after =
    (at : View) × (left : View) × Fades before at
    × Given ticks ttl from to key fingerprint at out left
    × Fades left after

Given-later :
    {ticks : ℕ} {ttl : Duration} {from from' to : Time} {key fingerprint : Bytes} {a b : View}
    {out : Outcome}
    → from ≤ from'
    → Given ticks ttl from' to key fingerprint a out b
    → Given ticks ttl from to key fingerprint a out b
Given-later since (taken token start t low le high free) =
    taken token start t (omega arith) le high free
Given-later since (in_flight r after there is_open) = in_flight r after there is_open
Given-later since (replayed r payload there done print body) =
    replayed r payload there done print body
Given-later since (mismatched r there done differs) = mismatched r there done differs

Begun-later :
    (ticks : ℕ) (ttl : Duration) (from from' to : Time) (key fingerprint : Bytes) (a b c : View)
    (res : Result Outcome)
    → from ≤ from'
    → Fades a b
    → Begun ticks ttl from' to key fingerprint res b c
    → Begun ticks ttl from to key fingerprint res a c
Begun-later ticks ttl from from' to key fingerprint a b c (err e) since faded x = tt
Begun-later ticks ttl from from' to key fingerprint a b c (ok out) since faded
      (at, left, first, given, last) =
    (at, left, Fades-trans a b at faded first, Given-later since given, last)

answer-Begun :
    (ticks : ℕ) (ttl : Duration) (from to : Time) (key fingerprint : Bytes) (x r : Record)
    (st : State) (now : Time) (before at after : View)
    → bare x ≡ bare r
    → x.state ≡ st
    → at.records key ≡ some r
    → Fades before at
    → Fades at after
    → Begun ticks ttl from to key fingerprint (answer st x fingerprint now) before after
unfolding answer
answer-Begun ticks ttl from to key fingerprint x r reserved now before at after same in_state there
      first last =
    (at, at, first, in_flight r _ there (sym (ap (λ (y : Record). y.state) same) ∙ in_state), last)
answer-Begun ticks ttl from to key fingerprint x r completed now before at after same in_state there
      first last =
    let state_is = sym (ap (λ (y : Record). y.state) same) ∙ in_state in
    let print_is = ap (λ (y : Record). y.fingerprint) same in
    elim (Bool-cases (bytes_eq x.fingerprint fingerprint)) [
      | inl e ↦ rw e (
        at,
        at,
        first,
        replayed r _ there state_is (sym print_is ∙ (bytes_eq_iff x.fingerprint fingerprint).0 e)
            (sym (ap (λ (y : Record). y.payload) same)),
        last,
      )
      | inr e ↦ rw e (
        at,
        at,
        first,
        mismatched r there state_is
            (λ eq. let yes = (bytes_eq_iff x.fingerprint fingerprint).1 (print_is ∙ eq) in cc),
        last,
      )
    ]
answer-Begun ticks ttl from to key fingerprint x r (invalid n) now before at after same in_state
      there first last =
    tt

module _ {W : Type 0} {ticks : ℕ} {clock : W → Time} {Inv : W → Type 0} {slots : W → View}
    {s : Store W} {rt : Runtime W} (law : IsShared ticks clock Inv slots s)
    (timed : IsRuntime clock Inv slots rt) (key fingerprint : Bytes) (o : Options) where
  -- A result from here on.
  abbrev Ends : W → Result Outcome × W → Type 0
  Ends w (res, w') =
      Inv w'
      × Begun ticks (lease_ttl o) (clock w) (clock w') key fingerprint res (slots w) (slots w')

  examine-Ends :
      (again : M W (Result Outcome)) (x r : Record) (from : Time) (before at : View) (w : W)
      → from ≤ clock w
      → ((w' : W) → Inv w' → Ends w' (again w'))
      → Inv w
      → bare x ≡ bare r
      → at.records key ≡ some r
      → Fades before at
      → Fades at (slots w)
      → let (res, w') = examine s rt again fingerprint x w in
        Inv w' × Begun ticks (lease_ttl o) from (clock w') key fingerprint res before (slots w')
  unfolding examine
  examine-Ends again x r from before at w since more inv same there first last =
      let (now, w1) = rt.now w in
      let (inv1, faded, read, on) = timed.now_law w inv in
      let to_now = Fades-trans at (slots w) (slots w1) last faded in
      elim (Bool-cases (expired x now)) [
        | inl e ↦
            let (inv2, ends) = more w1 inv1 in
            rw e (
              inv2,
              Begun-later ticks (lease_ttl o) from (clock w1) _ key fingerprint before (slots w1) _
                  _ (omega (arith, since, on)) (Fades-trans before at (slots w1) first to_now) ends,
            )
        | inr e ↦ rw e (
          inv1,
          answer-Begun ticks (lease_ttl o) from (clock w1) key fingerprint x r x.state now before at
              _ same refl there first to_now,
        )
      ]

  react_fault :
      (again : M W (Result Outcome)) (token : Bytes) (x : Option Record) (o : Option Error)
      (e : Error) (w : W)
      → o ≡ some e
      → is e already_exists ≡ false
      → react s rt again fingerprint token (x, o) w ≡ (err e, w)
  unfolding react
  react_fault again token none o e w failed fresh = rw (failed, fresh) refl
  react_fault again token (some x) o e w failed fresh = rw (failed, fresh) refl

  -- What a round makes of the reply of `Reserve`.
  react-Ends :
      (again : M W (Result Outcome)) (token : Bytes) (from start : Time)
      (reply : Option Record × Option Error) (before : View) (w : W)
      → from ≤ start
      → ((w' : W) → Inv w' → Ends w' (again w'))
      → Inv w
      → Reserved ticks
          (reservation key fingerprint token (add start (lease_ttl o)))
          reply
          start
          before
          (clock w)
          (slots w)
      → let (res, w') = react s rt again fingerprint token reply w in
        Inv w' × Begun ticks (lease_ttl o) from (clock w') key fingerprint res before (slots w')
  unfolding react reserve_now claim
  react-Ends again token from start reply before w since more inv
        (t, low, high, inr ((e, failed, not_there, _, _), _)) =
      rw (react_fault again token reply.0 reply.1 e w failed not_there) (inv, tt)
  react-Ends again token from start reply before w since more inv (t, low, high, inl x) =
      elim (Option-cases (x.at.records key)) [
        | inl free ↦
            let said = rw free at x.answered in
            let left = rw free at x.left in
            rw said (inv, (x.at, _, x.faded, taken token start t since low high free, left))
        | inr (r, there) ↦
            let (y, e, said, is_there, same) = rw there at x.answered in
            let left = rw there at x.left in
            rw (said, is_there)
              (examine-Ends again y r from before x.at w (omega (arith, since, low, high)) more inv
                same there x.faded left)
      ]

  attempt-Ends :
      (again : M W (Result Outcome)) (token : Bytes) (w : W)
      → ((w' : W) → Inv w' → Ends w' (again w'))
      → Inv w
      → Ends w (attempt s rt again key fingerprint o token w)
  unfolding attempt
  attempt-Ends again token w more inv =
      let (t, w1) = rt.now w in
      let (inv1, faded, read, on) = timed.now_law w inv in
      let rec = reservation key fingerprint token (add t (lease_ttl o)) in
      let (inv2, (u, from, to, called)) = law.reserve_law rec w1 (refl, refl) inv1 in
      let (inv3, ends) =
        react-Ends again token (clock w) t (s.reserve rec w1).0 (slots w1) (s.reserve rec w1).1
          (omega (arith, read, on)) more inv2 (u, omega (arith, from, read), to, called) in
      (
        inv3,
        Begun-later ticks (lease_ttl o) (clock w) (clock w) _ key fingerprint (slots w) (slots w1) _
            _ (omega arith) faded ends,
      )

  begin_loop-Ends :
      (left : ℕ) (token : Bytes) (w : W)
      → Inv w
      → Ends w (begin_loop s rt left key fingerprint o token w)
  unfolding begin_loop
  begin_loop-Ends zero token w inv = attempt-Ends _ token w (λ w' inv'. (inv', tt)) inv
  begin_loop-Ends (suc left) token w inv = attempt-Ends _ token w (begin_loop-Ends left token) inv

  -- Over a store that keeps the shared contract, by which a record is there until its deadline, with a
  -- clock that does not run back and a random source, both of which leave the records to time: an
  -- outcome of `Begin`, if it has one, is right at some instant between the call and its return, and
  -- nothing else happens to the records. `Proceed` was given where the key was free, and the
  -- reservation stands from then on, until the end of its lease: the rest, at a reading of the clock
  -- during the call, of the lease limit counted from an earlier such reading, and a millisecond at
  -- least. The others are by the record that stood in the way.
  pub begin-Begun :
      (w : W)
      → Inv w
      → let (res, w') = begin s rt key fingerprint o w in
        Inv w'
        × Begun ticks (lease_ttl o) (clock w) (clock w') key fingerprint res (slots w) (slots w')
  unfolding begin new_token
  begin-Begun w inv =
      let w1 = (rt.rand w).1 in
      let (inv1, faded, on) = timed.rand_law w inv in
      elim (Result-cases (rt.rand w).0) [
        | inr (e, drawn) ↦ rw drawn (inv1, tt)
        | inl (b, drawn) ↦
            let (inv2, ends) = begin_loop-Ends 2 (hex_encode b) w1 inv1 in
            rw drawn (
              inv2,
              Begun-later ticks (lease_ttl o) (clock w) (clock w1) _ key fingerprint (slots w)
                  (slots w1) _ _ on faded ends,
            )
      ]
