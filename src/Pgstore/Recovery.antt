-- ===== src/Pgstore/Recovery.antt =====
-- A lease whose holder is gone is taken by the next request after its deadline.
use idemlease.Base.{
  ℕ, ◌<◌, ◌≤◌, ltb, ◌≡◌, refl, Bytes, bytes_eq_refl, false, Option, none, some, [], arith,
}
use idemlease.Base.Int.{ℤ}
use idemlease.Base.Dict.{lookup}
use idemlease.Core.Time.{sub}
use idemlease.Core.Record.{Record}
use idemlease.Core.Store.{Error, ok}
use idemlease.Core.Spec.{update}
use idemlease.Core.Shared.{dated, IsReservation}
use idemlease.Core.Node.{Node, send, send_delivered}
use idemlease.Core.Node
use idemlease.Pgstore.{pass, now, reserve, reserve_loop, on_claim, lease_ttl_millis}
use idemlease.Pgstore.Rows.{Row, Table, stamp, after_ms, is_live, q_reserve, state_reserved}
use idemlease.Pgstore.Slots.{slot, slots, contents, IsStored, now_lem}
use idemlease.Pgstore.Steps.{Claims, claimed, blocked, q_reserve-Claims}
use idemlease.Pgstore.Reserving.{at_least_one_ms_pos}

abandoned_slot :
    (key : Bytes) (s : Table) (r : Row)
    → lookup key s.rows ≡ some r
    → r.state ≡ state_reserved
    → r.lease_expires_at ≤ stamp s
    → slots s key ≡ none
unfolding slot is_live
abandoned_slot key s r there one over =
    let past : ltb (stamp s) r.lease_expires_at ≡ false = ground arith in rw (there, one, past) refl

claimed_reply :
    (rec : Record) (n : ℕ) (s : Table) {o : Option ℤ} {s' : Table} (w : Node Table)
    (again : Node Table → (Option Record × Option Error) × Node Table)
    → w.server ≡ s'
    → slots s rec.key ≡ none
    → 0 < n
    → Claims rec n s o s'
    → let (reply, w') = on_claim again rec.key (ok o) w in
      (reply ≡ (none, none))
      × (d : ℕ) × (stamp w'.server < d)
      × ((contents w').records rec.key ≡ some (dated d rec))
unfolding on_claim update
claimed_reply rec n s w again at free low (claimed ms _ still left) = (
  refl,
  after_ms n s,
  rw at (omega (arith, still, low)),
  rw (at, left rec.key, bytes_eq_refl rec.key) refl,
)
claimed_reply rec n s w again at free low (blocked r there) = cc

reserve_free :
    (rec : Record) (w : Node Table)
    → IsReservation rec
    → w.network ≡ []
    → IsStored w
    → (contents w).records rec.key ≡ none
    → let (reply, w') = reserve rec w in
      (reply ≡ (none, none))
      × (d : ℕ) × (stamp w'.server < d)
      × ((contents w').records rec.key ≡ some (dated d rec))
unfolding reserve reserve_loop
reserve_free rec w new quiet kept free =
    let (t, w1) = now w in
    let (kept1, faded) = now_lem w kept in
    let quiet1 : w1.network ≡ [] = rw (Node.now_network pass w) quiet in
    let free1 : slots w1.server rec.key ≡ none = ground (arith, faded.1 rec.key, free) in
    let ms = lease_ttl_millis rec t in
    let f = q_reserve rec.key rec.token rec.fingerprint ms in
    let (_, claims) =
      q_reserve-Claims rec ms w1.server (at_least_one_ms_pos (sub rec.lease_expires_at t)) new
        kept1 in
    rw (send_delivered f w1 quiet1) (
      claimed_reply rec ms w1.server (record w1 { server = (f w1.server).1 }) (reserve_loop 2 rec)
        refl free1 (at_least_one_ms_pos (sub rec.lease_expires_at t)) claims)

-- Where a reserved row has reached its deadline by the server's clock, its owner having vanished, and
-- the network delivers, the next `Reserve` of the key succeeds, and the key holds its record, with a deadline that is still to
-- come; each row is taken to be reserved, or completed with a deadline.
pub reserve_abandoned :
    (rec : Record) (w : Node Table) (r : Row)
    → IsReservation rec
    → w.network ≡ []
    → IsStored w
    → lookup rec.key w.server.rows ≡ some r
    → r.state ≡ state_reserved
    → r.lease_expires_at ≤ stamp w.server
    → let (reply, w') = reserve rec w in
      (reply ≡ (none, none))
      × (d : ℕ) × (stamp w'.server < d)
      × ((contents w').records rec.key ≡ some (dated d rec))
reserve_abandoned rec w r new quiet kept there one over =
    reserve_free rec w new quiet kept (abandoned_slot rec.key w.server r there one over)
