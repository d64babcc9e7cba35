-- ===== src/Core/Node.antt =====
-- A client's process and the server that keeps its records: the client's clock, the time that passes, and
-- the calls that the network may lose.
use idemlease.Base.{ℕ, ◌+◌, ◌≤◌, arith, ◌≡◌, refl, List, [], ◌∷◌}
use idemlease.Base.Monad.{M}
use idemlease.Core.Time.{Time}
use idemlease.Core.Store.{Result, ok, err, wrapped, other}

-- How a call of the server goes: it may fail on the way there or on the way back.
pub data Delivery : Type 0 where
  delivered : Delivery
  lost_before lost_after : ℕ → Delivery

-- The server, the client's clock, the time that passes before each further reading of it, and how
-- the next calls go (well, after the last).
pub record Node (S : Type 0) : Type 0 where
  pub server : S
  pub clock : Time
  pub delays : List ℕ
  pub network : List Delivery

module _ {S : Type 0} (pass : ℕ → S → S) where
  tick : List ℕ → Node S → Time × Node S
  tick [] w = (w.clock, w)
  tick (d ∷ ds) w =
      (w.clock + d, record w { server = pass d w.server; clock = w.clock + d; delays = ds })

  -- `time.Now`, on the client; time passes on the server too.
  unfoldable pub now : M (Node S) Time
  unfolding tick
  now w = tick w.delays w

  tick_lem :
      (P : S → Type 0) (ds : List ℕ) (w : Node S)
      → P w.server
      → ((d : ℕ) → P (pass d w.server))
      → P (tick ds w).1.server
  unfolding tick
  tick_lem P [] w same later = same
  tick_lem P (d ∷ ds) w same later = later d

  pub now_lem :
      (P : S → Type 0) (w : Node S)
      → P w.server
      → ((d : ℕ) → P (pass d w.server))
      → P (now w).1.server
  unfolding now
  now_lem P w = tick_lem P w.delays w

  tick_network : (ds : List ℕ) (w : Node S) → (tick ds w).1.network ≡ w.network
  unfolding tick
  tick_network [] w = refl
  tick_network (d ∷ ds) w = refl

  pub now_network : (w : Node S) → (now w).1.network ≡ w.network
  unfolding now
  now_network w = tick_network w.delays w

  tick_clock : (ds : List ℕ) (w : Node S) → (tick ds w).1.clock ≡ (tick ds w).0
  unfolding tick
  tick_clock [] w = refl
  tick_clock (d ∷ ds) w = refl

  tick_later : (ds : List ℕ) (w : Node S) → w.clock ≤ (tick ds w).1.clock
  unfolding tick
  tick_later [] w = omega arith
  tick_later (d ∷ ds) w = omega arith

  -- The clock stands at the last reading.
  pub now_clock : (w : Node S) → (now w).1.clock ≡ (now w).0
  unfolding now
  now_clock w = tick_clock w.delays w

  pub now_later : (w : Node S) → w.clock ≤ (now w).1.clock
  unfolding now
  now_later w = tick_later w.delays w

module _ {S V : Type 0} where
  unfoldable pub transmit : List Delivery → (S → V × S) → Node S → Result V × Node S
  transmit [] f w = let (v, server) = f w.server in (ok v, record w { server = server })
  transmit (delivered ∷ ds) f w =
      let (v, server) = f w.server in (ok v, record w { server = server; network = ds })
  transmit (lost_before e ∷ ds) f w = (err (wrapped (other e)), record w { network = ds })
  transmit (lost_after e ∷ ds) f w =
      let (v, server) = f w.server in
      (err (wrapped (other e)), record w { server = server; network = ds })

  -- A call of the server, with the client's wrapping of its error.
  unfoldable pub send : (S → V × S) → M (Node S) (Result V)
  unfolding transmit
  send f w = transmit w.network f w

  -- It ran and its value came back, or the value was lost, or it did not run.
  pub data Ran (f : S → V × S) (s : S) : Result V → S → Type 0 where
    came : Ran f s (ok (f s).0) (f s).1
    was_lost : (e : ℕ) → Ran f s (err (wrapped (other e))) (f s).1
    did_not : (e : ℕ) → Ran f s (err (wrapped (other e))) s

  transmit_clock :
      (ds : List Delivery) (f : S → V × S) (w : Node S) → (transmit ds f w).1.clock ≡ w.clock
  unfolding transmit
  transmit_clock [] f w = refl
  transmit_clock (delivered ∷ ds) f w = refl
  transmit_clock (lost_before e ∷ ds) f w = refl
  transmit_clock (lost_after e ∷ ds) f w = refl

  pub send_clock : (f : S → V × S) (w : Node S) → (send f w).1.clock ≡ w.clock
  unfolding send
  send_clock f w = transmit_clock w.network f w

  transmit-Ran :
      (ds : List Delivery) (f : S → V × S) (w : Node S)
      → let (reply, w') = transmit ds f w in Ran f w.server reply w'.server
  unfolding transmit
  transmit-Ran [] f w = came
  transmit-Ran (delivered ∷ ds) f w = came
  transmit-Ran (lost_before e ∷ ds) f w = did_not e
  transmit-Ran (lost_after e ∷ ds) f w = was_lost e

  pub send-Ran :
      (f : S → V × S) (w : Node S) → let (reply, w') = send f w in Ran f w.server reply w'.server
  unfolding send
  send-Ran f w = transmit-Ran w.network f w

  transmit_delivered :
      (ds : List Delivery) (f : S → V × S) (w : Node S)
      → ds ≡ []
      → transmit ds f w ≡ (ok (f w.server).0, record w { server = (f w.server).1 })
  unfolding transmit
  transmit_delivered [] f w e = refl
  transmit_delivered (d ∷ ds) f w e = cc

  -- Where nothing more is lost.
  pub send_delivered :
      (f : S → V × S) (w : Node S)
      → w.network ≡ []
      → send f w ≡ (ok (f w.server).0, record w { server = (f w.server).1 })
  unfolding send
  send_delivered f w e = transmit_delivered w.network f w e
