-- ===== src/Core/Lease/Linear.antt =====
-- `Begin` acts on a lawful store as one step at one instant, although it reads the clock and calls
-- the store up to three times.
use idemlease.Base.{
  ℕ, ◌≤◌, ◌≡◌, ◌∙◌, refl, sym, zero, suc, Bytes, true, false, Option, none, some, inl, inr,
}
use idemlease.Base.{Option-cases, Bool-cases, arith}
use idemlease.Base.Monad.{M}
use idemlease.Core.Time.{Time, add}
use idemlease.Core.Record.{Record, expired}
use idemlease.Core.Store.{Error, Result, ok, Store, Runtime}
use idemlease.Core.Spec.{Records, Agrees, live, update, reserve_at, claim}
use idemlease.Core.Spec.Expiry.{live-none, live-some, live_of_not_expired, live_of_expired}
use idemlease.Core.Spec.Agreement.{Agrees-trans, Agrees-later, Agrees-update, Matches}
use idemlease.Core.Contract.{Replies, Moves, IsLawful}
use idemlease.Core.Lease.{
  Options, lease_ttl, Outcome, outcome, proceed, answer, reservation, examine, react, attempt,
  begin_loop, new_token, begin, hex_encode,
}

-- The step: with no live record the key is reserved, and a live record is answered by its state.
respond :
    Option Record
    → Time
    → Time
    → Bytes
    → Bytes
    → Options
    → Bytes
    → Records
    → Result Outcome × Records
respond none start u key fingerprint o token a = (
  ok (record (outcome proceed) { token = token }),
  update a key (some (reservation key fingerprint token (add start (lease_ttl o)))),
)
respond (some r) start u key fingerprint o token a = (answer r.state r fingerprint u, a)

-- `Begin` as one step on the records, at the instant `at`: the lease counts from `start`, and an
-- existing record is answered with what is left of its lease at the instant `u`.
unfoldable pub begin_at :
    Time → Time → Time → Bytes → Bytes → Options → Bytes → Records → Result Outcome × Records
unfolding respond
begin_at start at u key fingerprint o token a =
    respond (live at (a key)) start u key fingerprint o token a

-- A call that took from `lo` to `hi` was that step at an instant between; what was live under the
-- key then is live at the end too, unless the call replaced it.
pub record Linearized (lo hi : Time) (a b : Records) (key fingerprint : Bytes) (o : Options)
    (token : Bytes) (res : Result Outcome) : Type 0 where
  pub start : Time
  pub at : Time
  pub begun : lo ≤ start
  pub ordered : start ≤ at
  pub ended : at ≤ hi
  pub result : res ≡ (begin_at start at hi key fingerprint o token a).0
  pub effect : Agrees hi b (begin_at start at hi key fingerprint o token a).1
  pub still : live hi (a key) ≡ live at (a key)

respond-Matches :
    (x : Option Record) (start : Time) {u : Time} (key fingerprint : Bytes) (o : Options)
    (token : Bytes) {a b : Records}
    → Agrees u a b
    → Matches u
        (respond x start u key fingerprint o token a)
        (respond x start u key fingerprint o token b)
unfolding respond
respond-Matches none start key fingerprint o token ab = (refl, Agrees-update key _ ab)
respond-Matches (some r) start key fingerprint o token ab = (refl, ab)

-- The step may be taken on a store that agrees, and may have begun earlier.
Linearized-earlier :
    {lo lo' hi : Time} {a a' b : Records} {key fingerprint : Bytes} {o : Options} {token : Bytes}
    {res : Result Outcome}
    → lo ≤ lo'
    → Agrees lo' a' a
    → Linearized lo' hi a' b key fingerprint o token res
    → Linearized lo hi a b key fingerprint o token res
unfolding begin_at
Linearized-earlier {hi = hi} {a = a} {key = key} {fingerprint = fp} {o = o} {token = token} h ab d =
    let there = ab.same key d.at (omega (arith, d.begun, d.ordered)) in
    let late = ab.same key hi (omega (arith, d.begun, d.ordered, d.ended)) in
    let here =
      respond-Matches (live d.at (a key)) d.start {u = hi} key fp o token
        (Agrees-later (omega (arith, d.begun, d.ordered, d.ended)) ab) in
    record {
      start = d.start;
      at = d.at;
      begun = omega (arith, d.begun);
      ordered = d.ordered;
      ended = d.ended;
      result = (rw there at d.result) ∙ here.0;
      effect = Agrees-trans (rw there at d.effect) here.1;
      still = cc (there, late, d.still);
    }

module _ {W : Type 0} (clock : W → Time) (contents : W → Records) (s : Store W) (rt : Runtime W)
    (law : IsLawful clock contents s rt) (key fingerprint : Bytes) (o : Options)
    (token : Bytes) where
  abbrev Done : W → Result Outcome × W → Type 0
  Done w (res, w') =
      Linearized (clock w) (clock w') (contents w) (contents w') key fingerprint o token res

  abbrev rec_at : Time → Record
  rec_at t = reservation key fingerprint token (add t (lease_ttl o))

  -- The reply to a free key.
  react_free :
      (again : M W (Result Outcome)) (w w2 : W) (t : Time) (reply : Option Record × Option Error)
      → reply ≡ (none, none)
      → clock w ≤ t
      → t ≤ clock w2
      → live (clock w2) (contents w key) ≡ none
      → Agrees (clock w2) (contents w2) (update (contents w) key (some (rec_at t)))
      → Done w (react s rt again fingerprint token reply w2)
  unfolding react begin_at
  react_free again w w2 t reply e h1 h2 free agrees = rw e record {
    start = t;
    at = clock w2;
    begun = h1;
    ordered = h2;
    ended = omega arith;
    result = rw free;
    effect = rw free agrees;
    still = refl;
  }

  -- `Reserve` of a free key, and of a key that a live record holds.
  reserve_free :
      (rec : Record) (w : W)
      → let (reply, w') = s.reserve rec w in
        live (clock w') (contents w rec.key) ≡ none
        → (reply ≡ (none, none))
          × Moves clock contents w (update (contents w) rec.key (some rec)) w'
  unfolding reserve_at claim
  reserve_free rec w free = rw free at (law.reserve_law rec w)

  reserve_held :
      (rec r : Record) (w : W)
      → let (reply, w') = s.reserve rec w in
        live (clock w') (contents w rec.key) ≡ some r
        → Replies (some r) reply × Moves clock contents w (contents w) w'
  unfolding reserve_at claim
  reserve_held rec r w held = rw held at (law.reserve_law rec w)

  attempt_free :
      (again : M W (Result Outcome)) (w : W)
      → (let (t, w1) = rt.now w in
          let w2 = (s.reserve (rec_at t) w1).1 in live (clock w2) (contents w1 key) ≡ none)
      → Done w (attempt s rt again key fingerprint o token w)
  unfolding attempt
  attempt_free again w free =
      let (t, w1) = rt.now w in
      let (read, m1) = law.now_law w in
      let (reply, w2) = s.reserve (rec_at t) w1 in
      let (replied, m2) = reserve_free (rec_at t) w1 free in
      let a1 = Agrees-later m2.forward m1.agrees in
      react_free again w w2 t reply replied (omega (arith, read, m1.forward))
        (omega (arith, read, m2.forward)) ((sym (a1.same key (clock w2) (omega arith))) ∙ free)
        (Agrees-trans m2.agrees (Agrees-update key _ a1))

  -- A key that was free when the round began is free when it reserves.
  attempt_after_free :
      (again : M W (Result Outcome)) (w : W)
      → live (clock w) (contents w key) ≡ none
      → Done w (attempt s rt again key fingerprint o token w)
  attempt_after_free again w free =
      let (t, w1) = rt.now w in
      let m1 = (law.now_law w).1 in
      let w2 = (s.reserve (rec_at t) w1).1 in
      let m2 = (law.reserve_law (rec_at t) w1).1 in
      attempt_free again w (
        live-none (contents w1 key) m2.forward
          (m1.agrees.same key (clock w1) (omega arith) ∙ live-none _ m1.forward free))

  -- An existing record that is still live is answered.
  examine-live :
      (again : M W (Result Outcome)) (w w2 : W) (r : Record)
      → clock w ≤ clock w2
      → Agrees (clock w2) (contents w2) (contents w)
      → live (clock w2) (contents w key) ≡ some r
      → expired r (clock (rt.now w2).1) ≡ false
      → Done w (examine s rt again fingerprint r w2)
  unfolding examine begin_at respond
  examine-live again w w2 r h agrees held open_record =
      let (u, w3) = rt.now w2 in
      let (read, m3) = law.now_law w2 in
      let later : live (clock w3) (contents w key) ≡ some r =
        live_of_not_expired _ (clock w3) (live-some _ (clock w2) held).0 open_record in
      rw (← read, open_record)
        record {
          start = clock w2;
          at = clock w2;
          begun = h;
          ordered = omega arith;
          ended = m3.forward;
          result = rw held;
          effect = rw held (Agrees-trans m3.agrees (Agrees-later m3.forward agrees));
          still = later ∙ sym held;
        }

  -- An existing record that has expired since is given up, and its key is free.
  examine-expired :
      (again : M W (Result Outcome))
      → ((w : W) → live (clock w) (contents w key) ≡ none → Done w (again w))
      → (w w2 : W) (r : Record) → clock w ≤ clock w2
      → Agrees (clock w2) (contents w2) (contents w)
      → live (clock w2) (contents w key) ≡ some r
      → expired r (clock (rt.now w2).1) ≡ true
      → Done w (examine s rt again fingerprint r w2)
  unfolding examine
  examine-expired again retry w w2 r h agrees held past =
      let (u, w3) = rt.now w2 in
      let (read, m3) = law.now_law w2 in
      let all = Agrees-trans m3.agrees (Agrees-later m3.forward agrees) in
      let gone : live (clock w3) (contents w key) ≡ none =
        live_of_expired _ (clock w3) (live-some _ (clock w2) held).0 past in
      let free : live (clock w3) (contents w3 key) ≡ none =
        all.same key (clock w3) (omega arith) ∙ gone in
      rw (← read, past) (Linearized-earlier (omega (arith, m3.forward)) all (retry w3 free))

  -- A round whose `continue` is right on a free key is right.
  attempt_step :
      (again : M W (Result Outcome))
      → ((w : W) → live (clock w) (contents w key) ≡ none → Done w (again w))
      → (w : W) → Done w (attempt s rt again key fingerprint o token w)
  unfolding attempt react
  attempt_step again retry w =
      let (t, w1) = rt.now w in
      let m1 = (law.now_law w).1 in
      let (reply, w2) = s.reserve (rec_at t) w1 in
      elim (Option-cases (live (clock w2) (contents w1 key))) [
        | inl free ↦ attempt_free again w free
        | inr (r, held) ↦
            let ((e, replied, exists), m2) = reserve_held (rec_at t) r w1 held in
            let agrees = Agrees-trans m2.agrees (Agrees-later m2.forward m1.agrees) in
            let forward : clock w ≤ clock w2 = omega (arith, m1.forward, m2.forward) in
            let held' : live (clock w2) (contents w key) ≡ some r =
              sym (m1.agrees.same key (clock w2) m2.forward) ∙ held in
            rw (replied, exists)
              (elim (Bool-cases (expired r (clock (rt.now w2).1))) [
                | inr open_record ↦ examine-live again w w2 r forward agrees held' open_record
                | inl past ↦ examine-expired again retry w w2 r forward agrees held' past
              ])
      ]

  begin_loop_after_free :
      (left : ℕ) (w : W)
      → live (clock w) (contents w key) ≡ none
      → Done w (begin_loop s rt left key fingerprint o token w)
  unfolding begin_loop
  begin_loop_after_free zero w free = attempt_after_free _ w free
  begin_loop_after_free (suc left) w free = attempt_after_free _ w free

  begin_loop-Done :
      (left : ℕ) (w : W) → Done w (begin_loop s rt (suc left) key fingerprint o token w)
  unfolding begin_loop
  begin_loop-Done left w = attempt_step _ (begin_loop_after_free left) w

-- Over a lawful store, with a token drawn, `Begin` is one step at an instant between call and
-- return: it reserves the key if no record is live there, and answers the live record otherwise.
pub begin-Linearized :
    {W : Type 0} (clock : W → Time) (contents : W → Records) (s : Store W) (rt : Runtime W)
    → IsLawful clock contents s rt
    → (key fingerprint : Bytes) (o : Options) (w : W) (drawn : Bytes) → (rt.rand w).0 ≡ ok drawn
    → let (res, w') = begin s rt key fingerprint o w in
      Linearized
        (clock w)
        (clock w')
        (contents w)
        (contents w')
        key
        fingerprint
        o
        (hex_encode drawn)
        res
unfolding begin new_token
begin-Linearized clock contents s rt law key fingerprint o w drawn e =
    let m = law.rand_law w in
    rw e (
      Linearized-earlier m.forward m.agrees (
        begin_loop-Done clock contents s rt law key fingerprint o (hex_encode drawn) 1
          (rt.rand w).1))
