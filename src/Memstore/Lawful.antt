-- ===== src/Memstore/Lawful.antt =====
-- The in-memory store keeps the contract of store.go.
use idemlease.Base.{
  ◌+◌, ◌≤◌, ◌≡◌, refl, Bytes, bytes_eq, bytes_eq_iff, true, none, some, [], ◌∷◌, arith,
}
use mathlib.Core.Path.{subst}
use idemlease.Base.{sym, ◌∙◌, ℕ, Option, List, inl, inr, Bool-cases}
use idemlease.Base.Dict.{lookup, insert, erase, lookup-insert, lookup-erase}
use idemlease.Core.Time.{Time, Duration, add}
use idemlease.Core.Record.{Record, expired, is_reserved}
use idemlease.Core.Store.{is, Result}
use idemlease.Core.Spec.{
  completed_entry, Records, Agrees, live, update, reserve_at, complete_at, release_at, claim,
  transition, holds,
}
use idemlease.Core.Spec.Expiry.{expired_mono}
use idemlease.Core.Spec.Agreement.{Agrees-refl, Agrees-trans, Agrees-update}
use idemlease.Core.Contract.{Replies, Signals, Moves, IsLawful}
use idemlease.Memstore.{
  World, tick, now, rand, draw, drop_expired, lookup_live, reserve, complete, release, store,
  runtime, contents, store_reservation, store_completed, delete_released,
}

abbrev pub clock_of : World → Time
clock_of w = w.clock

-- Inserting under a key, and erasing it, are the updates of the specification.
insert-update :
    (t : Time) (w : World) (k : Bytes) (r : Record)
    → Agrees t (λ j. lookup j (insert k r w.recs)) (update (contents w) k (some r))
unfolding update
insert-update t w k r = record { same = λ j u h. rw lookup-insert }

erase-update :
    (t : Time) (w : World) (k : Bytes)
    → Agrees t (λ j. lookup j (erase k w.recs)) (update (contents w) k none)
unfolding update
erase-update t w k = record { same = λ j u h. rw lookup-erase }

erase-Agrees :
    (k : Bytes) (t : Time) (w : World) (r : Record)
    → contents w k ≡ some r
    → expired r t ≡ true
    → Agrees t (λ j. lookup j (erase k w.recs)) (contents w)
unfolding live
erase-Agrees k t w r e x = record {
  same = λ j u h.
      ground (arith, lookup-erase k j w.recs, bytes_eq_iff k j, expired_mono r {t = t} {u = u} h x);
}

-- An expired record may be deleted: nobody sees it from then on.
drop_expired-Agrees :
    (o : Option Record) (k : Bytes) (t : Time) (w : World)
    → contents w k ≡ o
    → let (found, w') = drop_expired o k t w in
      (found ≡ live t o) × Agrees t (contents w') (contents w) × (w'.clock ≡ w.clock)
unfolding drop_expired live
drop_expired-Agrees none k t w e = (refl, Agrees-refl t _, refl)
drop_expired-Agrees (some r) k t w e = elim (Bool-cases (expired r t)) [
  | inl x ↦ rw x (refl, erase-Agrees k t w r e x, refl)
  | inr x ↦ rw x (refl, Agrees-refl t _, refl)
]

store_reservation-claim :
    (o : Option Record) (rec : Record) (w : World) (a : Records) (t : Time)
    → Agrees t (contents w) a
    → let (reply, w') = store_reservation rec (o, w) in
      let (found, b) = claim o rec a in
      Replies found reply × Agrees t (contents w') b × (w'.clock ≡ w.clock)
unfolding store_reservation claim is
store_reservation-claim none rec w a t ab =
    (refl, Agrees-trans (insert-update t w rec.key rec) (Agrees-update rec.key _ ab), refl)
store_reservation-claim (some r) rec w a t ab = ((_, refl, refl), ab, refl)

store_completed-transition :
    (o : Option Record) (key token payload : Bytes) (until : Time) (w : World) (a : Records)
    (t : Time)
    → Agrees t (contents w) a
    → let (e, w') = store_completed key token payload until (o, w) in
      let (s, b) = transition (holds token o) key (completed_entry payload until o) a in
      Signals s e × Agrees t (contents w') b × (w'.clock ≡ w.clock)
unfolding store_completed transition holds completed_entry is
store_completed-transition none key token payload until w a t ab = ((_, refl, refl), ab, refl)
store_completed-transition (some r) key token payload until w a t ab =
    elim (Bool-cases (bytes_eq r.token token)) [
      | inr other ↦ rw other ((_, refl, refl), ab, refl)
      | inl same ↦ rw same (elim (Bool-cases (is_reserved r.state)) [
        | inr done ↦ rw done ((_, refl, refl), ab, refl)
        | inl open_lease ↦
            rw open_lease
              (refl, Agrees-trans (insert-update t w key _) (Agrees-update key _ ab), refl)
      ])
    ]

delete_released-transition :
    (o : Option Record) (key token : Bytes) (w : World) (a : Records) (t : Time)
    → Agrees t (contents w) a
    → let (e, w') = delete_released key token (o, w) in
      let (s, b) = transition (holds token o) key none a in
      Signals s e × Agrees t (contents w') b × (w'.clock ≡ w.clock)
unfolding delete_released transition holds is
delete_released-transition none key token w a t ab = ((_, refl, refl), ab, refl)
delete_released-transition (some r) key token w a t ab =
    elim (Bool-cases (bytes_eq r.token token)) [
      | inr other ↦ rw other ((_, refl, refl), ab, refl)
      | inl same ↦ rw same (elim (Bool-cases (is_reserved r.state)) [
        | inr done ↦ rw done ((_, refl, refl), ab, refl)
        | inl open_lease ↦
            rw open_lease (refl, Agrees-trans (erase-update t w key) (Agrees-update key _ ab), refl)
      ])
    ]

lookup_tick-live :
    (ds : List ℕ) (key : Bytes) (w : World)
    → let (t, w1) = tick ds w in
      let (found, w2) = lookup_live key t w1 in
      (found ≡ live t (contents w key))
      × Agrees t (contents w2) (contents w)
      × (w2.clock ≡ t)
      × (w.clock ≤ t)
unfolding tick lookup_live
lookup_tick-live [] key w =
    let (found, agrees, kept) = drop_expired-Agrees (lookup key w.recs) key w.clock w refl in
    (found, agrees, kept, omega arith)
lookup_tick-live (d ∷ ds) key w =
    let t : Time = w.clock + d in
    let w1 : World = record w { clock = t; delays = ds } in
    let (found, agrees, kept) = drop_expired-Agrees (lookup key w.recs) key t w1 refl in
    (found, agrees, kept, omega arith)

-- What the lookup at the start of each method finds, and what it leaves.
lookup_live-live :
    (key : Bytes) (w : World)
    → let (t, w1) = now w in
      let (found, w2) = lookup_live key t w1 in
      (found ≡ live t (contents w key))
      × Agrees t (contents w2) (contents w)
      × (w2.clock ≡ t)
      × (w.clock ≤ t)
unfolding now
lookup_live-live key w = lookup_tick-live w.delays key w

-- The laws follow from what a method does with the record that its lookup found.
module _ {X Y : Type 0} (Answers : X → Y → Type 0) (step : Time → Option Record → X × Records) where
  settle :
      (key : Bytes) (w w' : World) (y : Y) {t : Time} {o : Option Record}
      → o ≡ live t (contents w key)
      → w'.clock ≡ t
      → w.clock ≤ t
      → Answers (step t o).0 y
      → Agrees t (contents w') (step t o).1
      → let (x, a) = step w'.clock (live w'.clock (contents w key)) in
        Answers x y × Moves clock_of contents w a w'
  settle key w w' y {t} {o} found read forward answers agrees =
      let P : Time → Option Record → Type 0 =
        λ u x. Answers (step u x).0 y × Agrees u (contents w') (step u x).1 in
      let there : P t (live t (contents w key)) = subst (P t) found (answers, agrees) in
      let (r, a) = subst (λ u. P u (live u (contents w key))) (sym read) there in
      (r, record { forward = omega arith; agrees = a })

reserve_lem :
    (rec : Record) (w : World)
    → let (reply, w') = reserve rec w in
      let (found, a) = reserve_at w'.clock rec (contents w) in
      Replies found reply × Moves clock_of contents w a w'
unfolding reserve reserve_at
reserve_lem rec w =
    let (t, w1) = now w in
    let (o, w2) = lookup_live rec.key t w1 in
    let (found, agrees, kept, forward) = lookup_live-live rec.key w in
    let (reply, after, same) = store_reservation-claim o rec w2 (contents w) t agrees in
    settle Replies (λ _ x. claim x rec (contents w)) rec.key w _ _ found (same ∙ kept) forward reply
      after

complete_lem :
    (key token payload : Bytes) (ttl : Duration) (w : World)
    → let (e, w') = complete key token payload ttl w in
      let (s, a) = complete_at w'.clock key token payload ttl (contents w) in
      Signals s e × Moves clock_of contents w a w'
unfolding complete complete_at
complete_lem key token payload ttl w =
    let (t, w1) = now w in
    let (o, w2) = lookup_live key t w1 in
    let (found, agrees, kept, forward) = lookup_live-live key w in
    let until = add t ttl in
    let (e, after, same) =
      store_completed-transition o key token payload until w2 (contents w) t agrees in
    settle Signals
      (λ u x. transition (holds token x) key (completed_entry payload (add u ttl) x) (contents w))
      key w _ _ found (same ∙ kept) forward e after

release_lem :
    (key token : Bytes) (w : World)
    → let (e, w') = release key token w in
      let (s, a) = release_at w'.clock key token (contents w) in
      Signals s e × Moves clock_of contents w a w'
unfolding release release_at
release_lem key token w =
    let (t, w1) = now w in
    let (o, w2) = lookup_live key t w1 in
    let (found, agrees, kept, forward) = lookup_live-live key w in
    let (e, after, same) = delete_released-transition o key token w2 (contents w) t agrees in
    settle Signals (λ _ x. transition (holds token x) key none (contents w)) key w _ _ found
      (same ∙ kept) forward e after

tick_lem :
    (ds : List ℕ) (w : World)
    → let (t, w') = tick ds w in (w'.clock ≡ t) × Moves clock_of contents w (contents w) w'
unfolding tick
tick_lem [] w = (refl, record { forward = omega arith; agrees = Agrees-refl _ _ })
tick_lem (d ∷ ds) w = (refl, record { forward = omega arith; agrees = Agrees-refl _ _ })

draw_lem :
    (bs : List (Result Bytes)) (w : World) → Moves clock_of contents w (contents w) (draw bs w).1
unfolding draw
draw_lem [] w = record { forward = omega arith; agrees = Agrees-refl _ _ }
draw_lem (b ∷ bs) w = record { forward = omega arith; agrees = Agrees-refl _ _ }

now_lem :
    (w : World) → ((now w).1.clock ≡ (now w).0) × Moves clock_of contents w (contents w) (now w).1
unfolding now
now_lem w = tick_lem w.delays w

rand_lem : (w : World) → Moves clock_of contents w (contents w) (rand w).1
unfolding rand
rand_lem w = draw_lem w.draws w

-- The in-memory store and its runtime are lawful: reserve, complete and release each answer and
-- change the records as the specification does at the instant that the method reads.
pub store-IsLawful : IsLawful clock_of contents store runtime
store-IsLawful = record {
  reserve_law = reserve_lem;
  complete_law = complete_lem;
  release_law = release_lem;
  now_law = now_lem;
  rand_law = rand_lem;
}
