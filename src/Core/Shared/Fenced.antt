-- ===== src/Core/Shared/Fenced.antt =====
-- Over a shared store, a completion or release that succeeds is the latest lease's own.
use idemlease.Base.{
  ℕ, ◌*◌, ◌≡◌, refl, inl, inr, Bytes, true, false, Option, none, some, List, [], ◌∷◌, All, arith,
}
use idemlease.Core.Time.{Time, sub, at_least_one_ms}
use idemlease.Core.Record.{Record}
use idemlease.Core.Store.{Sentinel, Error, Store}
use idemlease.Core.Shared.{
  View, Fades, reserve_now, complete_now, release_now, Found, Refused, Took, Call, IsShared,
}
use idemlease.Core.Shared.Trace.{
  Label, acquired, committed, given_back, Run, stop, then-Run, is_fenced, Run-is_fenced,
}
use idemlease.Core.Shared.Fencing.{
  IsLabel, Op, reserve_op, complete_op, release_op, IsProper, Verdict, unsure, verdict, is_done,
  is_refused, perform, perform_all, Explains, no_call, elsewhere, did_not, did, Effect, other,
  refuses, does, Fades-Run, reserve_now-Effect, complete_now-Effect, release_now-Effect,
}

-- The calls on the key are explained by a run from what it held to what it holds.
abbrev pub Trace : ℕ → Bytes → List Op → List (Verdict × Time) → View → View → Type 0
Trace ticks key ops acks a b =
    (ls : List Label) × Explains ticks key ops acks ls
    × Run a.time (a.records key) ls b.time (b.records key)

-- The verdict fits the answer of an operation on the records.
abbrev Fits : {X : Type 0} → Option X → Verdict → Type 0
Fits none v = is_refused v ≡ false
Fits (some x) v = is_done v ≡ false

-- The same, from the middle of an operation.
abbrev From : ℕ → Bytes → List Op → List (Verdict × Time) → ℕ → Option Record → View → Type 0
From ticks key ops acks t o b =
    (ls : List Label) × Explains ticks key ops acks ls × Run t o ls b.time (b.records key)

precede :
    {X : Type 0} {ticks : ℕ} {key : Bytes} {op : Op} {l : Label} {seen : Time} {t : ℕ}
    {o o1 : Option Record} {x : Option X} {v : Verdict} {ops : List Op}
    {acks : List (Verdict × Time)} (b : View)
    → IsLabel ticks seen op l
    → Effect key op l t o x o1
    → Fits x v
    → From ticks key ops acks t o1 b
    → From ticks key (op ∷ ops) ((v, seen) ∷ acks) t o b
precede b is (other e) fits (ls, ex, run) = (ls, elsewhere e ex, run)
precede b is refuses fits (ls, ex, run) = (ls, did_not fits ex, run)
precede b is (does e first) fits (ls, ex, run) = (_, did _ e fits is ex, then-Run first run)

fade_first :
    {ticks : ℕ} {a b : View} {key : Bytes} {ops : List Op} {acks : List (Verdict × Time)} (c : View)
    → Fades a b
    → Trace ticks key ops acks b c
    → Trace ticks key ops acks a c
fade_first {key = key} c faded (ls, ex, run) = (ls, ex, then-Run (Fades-Run key faded) run)

unsure-Fits : {X : Type 0} (x : Option X) → Fits x unsure
unsure-Fits none = refl
unsure-Fits (some x) = refl

module _ {X : Type 0} (ticks : ℕ) (key : Bytes) (op : Op) (l : Label) (seen : Time)
    (is_label : IsLabel ticks seen op l) (f : View → Option X × View)
    (effect : (a : View) → Effect key op l a.time (a.records key) (f a).0 ((f a).1.records key))
    (still : (a : View) → (f a).1.time ≡ a.time) where
  took :
      {Answer : Option X → Type 0} {before after : View} {v : Verdict} {ops : List Op}
      {acks : List (Verdict × Time)} (c : View)
      → ((x : Option X) → Answer x → Fits x v)
      → Took f Answer before after
      → Trace ticks key ops acks after c
      → Trace ticks key (op ∷ ops) ((v, seen) ∷ acks) before c
  took c h t trace =
      let (ls, ex, run) = fade_first c t.left trace in
      fade_first c t.faded (
        precede c is_label (effect t.at) (h (f t.at).0 t.answered) (ls, ex, rw (still t.at) at run))

  call :
      {Answer : Option X → Type 0} {before after : View} {e : Option Error} {ops : List Op}
      {acks : List (Verdict × Time)} (c : View)
      → ((x : Option X) → Answer x → Fits x (verdict e))
      → Call f Answer e before after
      → Trace ticks key ops acks after c
      → Trace ticks key (op ∷ ops) ((verdict e, seen) ∷ acks) before c
  unfolding verdict
  call c h (inl t) trace = took c h t trace
  call c h (inr ((x, failed, e1, e2, e3), inl faded)) trace =
      let (ls, ex, run) = fade_first c faded trace in
      (ls, rw (failed, e1, e2, e3) (did_not refl ex), run)
  call c h (inr ((x, failed, e1, e2, e3), inr t)) trace =
      rw (failed, e1, e2, e3) (took c (λ y answered. unsure-Fits y) t trace)

Refused-Fits : (e : Option Error) (x : Option Sentinel) → Refused x e → Fits x (verdict e)
unfolding verdict
Refused-Fits e none said = rw said refl
Refused-Fits e (some s) (x, said, inl m) = rw said (ground (arith, m))
Refused-Fits e (some s) (x, said, inr m) = rw said (ground (arith, m))

Found-Fits :
    (reply : Option Record × Option Error) (x : Option Record)
    → Found x reply
    → Fits x (verdict reply.1)
unfolding verdict
Found-Fits reply none said = rw said refl
Found-Fits reply (some r) (x, e, said, is_there, _) = rw (said, is_there) refl

module _ {W : Type 0} {ticks : ℕ} {clock : W → Time} {Inv : W → Type 0} {slots : W → View}
    {s : Store W} (law : IsShared ticks clock Inv slots s) where
  perform-Trace :
      (key : Bytes) (op : Op) (w : W) (c : View) (ops : List Op) (acks : List (Verdict × Time))
      → IsProper op
      → Inv w
      → let (e, w') = perform s op w in
        Inv w'
        × (Trace ticks key ops acks (slots w') c
            → Trace ticks key (op ∷ ops) ((verdict e, clock w') ∷ acks) (slots w) c)
  unfolding reserve_now complete_now release_now
  perform-Trace key (reserve_op rec) w c ops acks new inv =
      let (inv', (t, _, to, called)) = law.reserve_law rec w new inv in
      let n = at_least_one_ms (sub rec.lease_expires_at t) * ticks in
      (
        inv',
        call ticks key (reserve_op rec) (acquired rec n) _ (t, to, refl) (reserve_now n rec)
            (λ a. reserve_now-Effect n rec key a new) (λ a. refl) c (Found-Fits (s.reserve rec w).0)
            called,
      )
  perform-Trace key (complete_op k token payload ttl) w c ops acks fits inv =
      let (inv', called) = law.complete_law k token payload ttl w fits inv in
      let n = at_least_one_ms ttl * ticks in
      (
        inv',
        call ticks key (complete_op k token payload ttl) (committed token payload n) _ refl
            (complete_now n k token payload) (complete_now-Effect key k token payload n ttl)
            (λ a. refl) c (Refused-Fits _) called,
      )
  perform-Trace key (release_op k token) w c ops acks _ inv =
      let (inv', called) = law.release_law k token w inv in
      (
        inv',
        call ticks key (release_op k token) (given_back token) _ refl (release_now k token)
            (release_now-Effect key k token) (λ a. refl) c (Refused-Fits _) called,
      )

  -- What the calls did to a key is a run of the lease's life, from what it held to what it holds.
  pub perform_all-Trace :
      (key : Bytes) (ops : List Op) (w : W)
      → All IsProper ops
      → Inv w
      → let (acks, w') = perform_all s clock ops w in Trace ticks key ops acks (slots w) (slots w')
  unfolding perform_all
  perform_all-Trace key [] w proper inv = ([], no_call, stop)
  perform_all-Trace key (op ∷ ops) w (proper, rest) inv =
      let (inv', step) =
        perform-Trace key op w (slots (perform_all s clock ops (perform s op w).1).1) ops
          (perform_all s clock ops (perform s op w).1).0 proper inv in
      step (perform_all-Trace key ops (perform s op w).1 rest inv')

  -- And it is fenced, if the key was free.
  pub perform_all-is_fenced :
      (key : Bytes) (ops : List Op) (w : W)
      → All IsProper ops
      → Inv w
      → (slots w).records key ≡ none
      → let (acks, w') = perform_all s clock ops w in
        (ls : List Label) × Explains ticks key ops acks ls
        × Run (slots w).time none ls (slots w').time ((slots w').records key)
        × (is_fenced none ls ≡ true)
  perform_all-is_fenced key ops w proper inv free =
      let (ls, ex, run) = perform_all-Trace key ops w proper inv in
      let from_free = rw free at run in
      (ls, ex, from_free, Run-is_fenced from_free (λ r there is_open. cc))
