-- ===== src/Pgstore/Reserving.antt =====
-- `Reserve`: the claim, the reading of the row that blocks it, and the loop.
use idemlease.Base.{ℕ, zero, suc, ◌*◌, ◌≤◌, ◌<◌, ◌≡◌, refl, sym, ◌∙◌, ◌⊎◌, inl, inr, Option, arith}
use mathlib.Core.Path.{subst}
use idemlease.Base.Int.{ℤ, pos, negsuc}
use idemlease.Base.Monad.{M}
use idemlease.Core.Time.{Time, Duration, at_least_one_ms, sub}
use idemlease.Core.Record.{Record}
use idemlease.Core.Store.{Error, Result, ok, is}
use idemlease.Core.Spec.{claim}
use idemlease.Core.Node
use idemlease.Core.Node.{Node, Ran, came, was_lost, did_not, send, send-Ran}
use idemlease.Core.Shared.{
  View, Reserved, Fades-same, Fades, Fades-refl, Fades-trans, reserve_now, Found, Took, Call,
  IsReservation,
}
use idemlease.Pgstore.{pass, now, lease_ttl_millis, on_existing, on_claim, reserve_loop, reserve}
use idemlease.Pgstore.Rows.{Table, Selected, q_reserve, q_get}
use idemlease.Pgstore.Slots.{contents, view, IsStored, AreWritten, now_lem}
use idemlease.Pgstore.Steps.{
  Claims, claimed, blocked, Reads, absent, present, q_reserve-Claims, q_get-Reads,
}

pub at_least_one_ms_pos : (d : Duration) → 0 < at_least_one_ms d
unfolding at_least_one_ms
at_least_one_ms_pos (pos n) = ground arith
at_least_one_ms_pos (negsuc n) = omega arith

call_later :
    {R : Type 0} (f : View → R × View) (Answer : R → Type 0) (e : Option Error) (a b c : View)
    → Fades a b
    → Call f Answer e b c
    → Call f Answer e a c
call_later f Answer e a b c faded (inl t) = inl (record {
  at = t.at;
  faded = Fades-trans a b t.at faded t.faded;
  answered = t.answered;
  left = t.left;
})
call_later f Answer e a b c faded (inr (fault, inl rest)) =
    inr (fault, inl (Fades-trans a b c faded rest))
call_later f Answer e a b c faded (inr (fault, inr t)) = inr (
  fault,
  inr (record {
    at = t.at;
    faded = Fades-trans a b t.at faded t.faded;
    answered = tt;
    left = t.left;
  }),
)

module _ (rec : Record) where
  -- The lease in the server's microseconds, by a reading of the clock.
  abbrev lease_at : Time → ℕ
  lease_at t = at_least_one_ms (sub rec.lease_expires_at t) * 1000

  -- A reply of `Reserve` for the records before, with the world that it leaves.
  abbrev Ends : Time → View → (Option Record × Option Error) × Node Table → Type 0
  Ends start before (reply, w') =
      IsStored w' × Reserved 1000 rec reply start before w'.clock (contents w')

  Ends-later :
      (start : Time) (a : View) (w : Node Table) (x : (Option Record × Option Error) × Node Table)
      → start ≤ w.clock
      → Fades a (contents w)
      → Ends w.clock (contents w) x
      → Ends start a x
  Ends-later start a w (reply, w') since faded (kept, (t, from, to, called)) = (
    kept,
    (
      t,
      omega arith,
      to,
      call_later (reserve_now (lease_at t) rec) (λ found. Found found reply) reply.1 a (contents w)
          (contents w') faded called,
    ),
  )

  module _ (again : M (Node Table) (Option Record × Option Error))
      (more : (w : Node Table) → IsStored w → Ends w.clock (contents w) (again w)) (start t : Time)
      (from : start ≤ t) where
    on_existing-found :
        (before : View) {o : Option Selected} (w : Node Table)
        → t ≤ w.clock
        → Fades before (contents w)
        → IsStored w
        → Reads rec.key w.server o
        → Ends start before (on_existing again rec.key (ok o) w)
    unfolding on_existing reserve_now claim is
    on_existing-found before w to faded kept absent =
        Ends-later start before w (again w) (omega (arith, from, to)) faded (more w kept)
    on_existing-found before w to faded kept (present row reads) =
        let (u, w1) = now w in
        let (kept1, later) = now_lem w kept in
        let (x, read, r, there, same) = reads u in
        let on = Node.now_later pass w in
        rw read (
          kept1,
          (
            t,
            from,
            omega (arith, to, on),
            inl (record {
              at = contents w;
              faded = faded;
              answered = rw there (x, _, refl, refl, same);
              left = rw there later;
            }),
          ),
        )

    on_existing-Ran :
        (before : View) {s s' : Table} {reply : Result (Option Selected)}
        (f : Table → Option Selected × Table) (w : Node Table)
        → t ≤ w.clock
        → (f s).1 ≡ s
        → w.server ≡ s'
        → Fades before (view s)
        → AreWritten s
        → Reads rec.key s (f s).0
        → Ran f s reply s'
        → Ends start before (on_existing again rec.key reply w)
    unfolding on_existing is
    on_existing-Ran before {s = s} f w to same at faded kept reads came =
        let now_at = at ∙ same in
        on_existing-found before w to (rw now_at faded) (rw now_at kept)
          (subst (λ u. Reads rec.key u (f s).0) (sym now_at) reads)
    on_existing-Ran before f w to same at faded kept reads (was_lost e) =
        let now_at = at ∙ same in
        (rw now_at kept, (t, from, to, inr ((_, refl, refl, refl, refl), inl (rw now_at faded))))
    on_existing-Ran before f w to same at faded kept reads (did_not e) =
        (rw at kept, (t, from, to, inr ((_, refl, refl, refl, refl), inl (rw at faded))))

    -- What follows the claim.
    on_claim-Ends :
        (before : View) (s : Table) {o : Option ℤ} {s' : Table} (w : Node Table)
        → t ≤ w.clock
        → w.server ≡ s'
        → Fades before (view s)
        → AreWritten s'
        → Claims rec (at_least_one_ms (sub rec.lease_expires_at t)) s o s'
        → Ends start before (on_claim again rec.key (ok o) w)
    unfolding on_claim reserve_now claim
    on_claim-Ends before s w to at faded kept (claimed ms free still left) = (
      rw at kept,
      (
        t,
        from,
        to,
        inl (record {
          at = view s;
          faded = faded;
          answered = rw free refl;
          left = Fades-same _ _ (rw at still) (λ k. rw (at, free, left k) refl);
        }),
      ),
    )
    on_claim-Ends before s w to at faded kept (blocked r there) =
        let f : Table → Option Selected × Table = λ u. (q_get rec.key u, u) in
        let w1 = (now w).1 in
        let w2 = (send f w1).1 in
        let (kept1, later) = now_lem w (rw at kept) in
        let on = Node.now_later pass w in
        let sent = Node.send_clock f w1 in
        on_existing-Ran before f w2 (omega (arith, to, on, sent)) refl refl
          (Fades-trans before (contents w) (contents w1) (rw at faded) later) kept1
          (q_get-Reads rec.key w1.server kept1) (send-Ran f w1)

    -- A claim that the network may have lost.
    claim-Took :
        (before : View) {s s' : Table} {o : Option ℤ}
        → Fades before (view s)
        → Claims rec (at_least_one_ms (sub rec.lease_expires_at t)) s o s'
        → Took (reserve_now (lease_at t) rec) (λ x. Unit {0}) before (view s')
          ⊎ Fades before (view s')
    unfolding reserve_now claim
    claim-Took before {s = s} faded (claimed ms free still left) = inl (record {
      at = view s;
      faded = faded;
      answered = tt;
      left = Fades-same _ _ still (λ k. rw (free, left k) refl);
    })
    claim-Took before {s = s} faded (blocked r there) = inr faded

    claim-Ran :
        (before : View) (f : Table → Option ℤ × Table) (s : Table) {s' : Table}
        {reply : Result (Option ℤ)} (w : Node Table)
        → t ≤ w.clock
        → w.server ≡ s'
        → Fades before (view s)
        → AreWritten s
        → AreWritten (f s).1
          × Claims rec (at_least_one_ms (sub rec.lease_expires_at t)) s (f s).0 (f s).1
        → Ran f s reply s'
        → Ends start before (on_claim again rec.key reply w)
    unfolding on_claim is
    claim-Ran before f s w to at faded kept (kept', claims) came =
        on_claim-Ends before s w to at faded kept' claims
    claim-Ran before f s w to at faded kept (kept', claims) (was_lost e) = (
      rw at kept',
      (
        t,
        from,
        to,
        inr (
          (_, refl, refl, refl, refl),
          elim (claim-Took before faded claims) [
            | inl x ↦ inr (rw at x)
            | inr same ↦ inl (rw at same)
          ],
        ),
      ),
    )
    claim-Ran before f s w to at faded kept (kept', claims) (did_not e) =
        (rw at kept, (t, from, to, inr ((_, refl, refl, refl, refl), inl (rw at faded))))

reserve_loop-Ends :
    (left : ℕ) (rec : Record) (w : Node Table)
    → IsReservation rec
    → IsStored w
    → Ends rec w.clock (contents w) (reserve_loop left rec w)
unfolding reserve_loop is
reserve_loop-Ends zero rec w new kept = (
  kept,
  (w.clock, omega arith, omega arith, inr ((_, refl, refl, refl, refl), inl (Fades-refl _))),
)
reserve_loop-Ends (suc left) rec w new kept =
    let (t, w1) = now w in
    let (kept1, faded) = now_lem w kept in
    let ms = lease_ttl_millis rec t in
    let f = q_reserve rec.key rec.token rec.fingerprint ms in
    let on = Node.now_later pass w in
    let read = Node.now_clock pass w in
    let sent = Node.send_clock f w1 in
    claim-Ran rec (reserve_loop left rec) (λ w' kept'. reserve_loop-Ends left rec w' new kept')
      w.clock t (omega (arith, on, read)) (contents w) f w1.server _ (omega (arith, read, sent))
      refl faded kept1
      (q_reserve-Claims rec ms w1.server (at_least_one_ms_pos (sub rec.lease_expires_at t)) new
        kept1)
      (send-Ran f w1)

pub reserve_lem :
    (rec : Record) (w : Node Table)
    → IsReservation rec
    → IsStored w
    → let (reply, w') = reserve rec w in
      IsStored w' × Reserved 1000 rec reply w.clock (contents w) w'.clock (contents w')
unfolding reserve
reserve_lem rec w = reserve_loop-Ends 3 rec w
