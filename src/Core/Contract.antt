-- ===== src/Core/Contract.antt =====
-- The contract of store.go as laws: each operation takes effect at one instant of the store's
-- clock, as the specification says. A store of the repository fills it; `Begin`'s and `Finish`'s
-- theorems take it as a parameter.
use idemlease.Base.{◌≤◌, ◌≡◌, true, Bytes, Option, none, some}
use idemlease.Core.Time.{Time, Duration}
use idemlease.Core.Record.{Record}
use idemlease.Core.Store.{Sentinel, Error, is, Store, Runtime, already_exists}
use idemlease.Core.Spec.{Records, Agrees, reserve_at, complete_at, release_at}

-- The error pair of `Reserve` for the record that stands in the way.
abbrev pub Replies : Option Record → Option Record × Option Error → Type 0
Replies none reply = reply ≡ (none, none)
Replies (some r) reply = (e : Error) × (reply ≡ (some r, some e)) × (is e already_exists ≡ true)

-- The error stands for the sentinel, wrapped or not.
abbrev pub Signals : Option Sentinel → Option Error → Type 0
Signals none e = e ≡ none
Signals (some s) e = (x : Error) × (e ≡ some x) × (is x s ≡ true)

module _ {W : Type 0} (clock : W → Time) (contents : W → Records) where
  -- The world moved on by an operation that left the given records at the instant of its end.
  pub record Moves (w : W) (a : Records) (w' : W) : Type 0 where
    pub forward : clock w ≤ clock w'
    pub agrees : Agrees (clock w') (contents w') a

  pub record IsLawful (s : Store W) (rt : Runtime W) : Type 0 where
    pub reserve_law :
        (rec : Record) (w : W)
        → let (reply, w') = s.reserve rec w in
          let (found, a) = reserve_at (clock w') rec (contents w) in
          Replies found reply × Moves w a w'
    pub complete_law :
        (key token payload : Bytes) (ttl : Duration) (w : W)
        → let (e, w') = s.complete key token payload ttl w in
          let (s, a) = complete_at (clock w') key token payload ttl (contents w) in
          Signals s e × Moves w a w'
    pub release_law :
        (key token : Bytes) (w : W)
        → let (e, w') = s.release key token w in
          let (s, a) = release_at (clock w') key token (contents w) in Signals s e × Moves w a w'
    pub now_law : (w : W) → (clock (rt.now w).1 ≡ (rt.now w).0) × Moves w (contents w) (rt.now w).1
    pub rand_law : (w : W) → Moves w (contents w) (rt.rand w).1
