-- ===== src/Core/Shared/Fencing.antt =====
-- Any sequence of calls to a shared store, by any number of processes, with any faults: what they
-- did to one key.
use idemlease.Base.{
  ℕ, ◌*◌, ◌≤◌, ◌≡◌, refl, sym, ◌||◌, inl, inr, Bytes, bytes_eq, bytes_eq_sound, bytes_eq_refl,
  if◌then◌else◌, Bool, true, false, Bool-cases, Option, none, some, List, [], ◌∷◌, Option-cases,
}
use idemlease.Base.Decimal.{IsInt64}
use idemlease.Core.Time.{Time, Duration, sub, at_least_one_ms}
use idemlease.Core.Record.{Record, is_reserved}
use idemlease.Core.Store.{Error, Store, is, already_exists, token_mismatch, not_found}
use idemlease.Core.Spec.{Records, update, claim, transition, holds}
use idemlease.Core.Shared.{
  View, Fades, reserve_now, complete_now, completed_now, release_now, IsReservation,
}
use idemlease.Core.Shared.Trace.{
  Label, acquired, committed, given_back, Run, stop, wait, fade, acquire, commit, give_back,
}

-- A call of one of the three operations.
pub data Op : Type 0 where
  reserve_op : Record → Op
  complete_op : Bytes → Bytes → Bytes → Duration → Op
  release_op : Bytes → Bytes → Op

abbrev pub key_of : Op → Bytes
key_of (reserve_op rec) = rec.key
key_of (complete_op key token payload ttl) = key
key_of (release_op key token) = key

-- What the call does to its key where it happens: the record of a reservation stands for what is left of
-- its lease at a reading of the client's clock no later than the reply, a completed one for its TTL.
abbrev pub IsLabel : ℕ → Time → Op → Label → Type 0
IsLabel ticks seen (reserve_op rec) l =
    (t : Time) × (t ≤ seen)
    × (l ≡ acquired rec (at_least_one_ms (sub rec.lease_expires_at t) * ticks))
IsLabel ticks seen (complete_op key token payload ttl) l =
    l ≡ committed token payload (at_least_one_ms ttl * ticks)
IsLabel ticks seen (release_op key token) l = l ≡ given_back token

-- `Begin` and `Finish` make no other calls.
abbrev pub IsProper : Op → Type 0
IsProper (reserve_op rec) = IsReservation rec
IsProper (complete_op key token payload ttl) = IsInt64 ttl
IsProper (release_op key token) = Unit

-- What the caller learns: it happened, it was refused with one of the sentinels, or neither is known.
pub data Verdict : Type 0 where
  done refused unsure : Verdict

unfoldable pub verdict : Option Error → Verdict
verdict none = done
verdict (some e) =
    if is e already_exists || (is e token_mismatch || is e not_found) then refused else unsure

abbrev pub is_done : Verdict → Bool
is_done done = true
is_done _ = false

abbrev pub is_refused : Verdict → Bool
is_refused refused = true
is_refused _ = false

module _ {W : Type 0} (s : Store W) where
  abbrev pub perform : Op → W → Option Error × W
  perform (reserve_op rec) w = let (reply, w') = s.reserve rec w in (reply.1, w')
  perform (complete_op key token payload ttl) w = s.complete key token payload ttl w
  perform (release_op key token) w = s.release key token w

  -- What the callers learn and when, by the client's clock, and the world after the last.
  unfoldable pub perform_all : (W → Time) → List Op → W → List (Verdict × Time) × W
  perform_all clock [] w = ([], w)
  perform_all clock (op ∷ ops) w =
      let (e, w1) = perform op w in
      let (acks, w2) = perform_all clock ops w1 in ((verdict e, clock w1) ∷ acks, w2)

-- The labels are what the calls on the key did, in turn: those that succeeded are there, those that were
-- refused are not, and the others may be.
pub data Explains (ticks : ℕ) (key : Bytes)
    : List Op → List (Verdict × Time) → List Label → Type 0 where
  no_call : Explains ticks key [] [] []
  elsewhere :
      {op : Op} {ops : List Op} {v : Verdict} {seen : Time} {acks : List (Verdict × Time)}
      {ls : List Label}
      → bytes_eq (key_of op) key ≡ false
      → Explains ticks key ops acks ls
      → Explains ticks key (op ∷ ops) ((v, seen) ∷ acks) ls
  did_not :
      {op : Op} {ops : List Op} {v : Verdict} {seen : Time} {acks : List (Verdict × Time)}
      {ls : List Label}
      → is_done v ≡ false
      → Explains ticks key ops acks ls
      → Explains ticks key (op ∷ ops) ((v, seen) ∷ acks) ls
  did :
      (l : Label) {op : Op} {ops : List Op} {v : Verdict} {seen : Time}
      {acks : List (Verdict × Time)} {ls : List Label}
      → bytes_eq (key_of op) key ≡ true
      → is_refused v ≡ false
      → IsLabel ticks seen op l
      → Explains ticks key ops acks ls
      → Explains ticks key (op ∷ ops) ((v, seen) ∷ acks) (l ∷ ls)

-- What an operation on the records does to one of them, at one instant.
pub data Effect {X : Type 0} (key : Bytes) (op : Op) (l : Label) (t : ℕ) (o : Option Record)
    : Option X → Option Record → Type 0 where
  other : {x : Option X} → bytes_eq (key_of op) key ≡ false → Effect key op l t o x o
  refuses : {x : X} → Effect key op l t o (some x) o
  does :
      {o' : Option Record}
      → bytes_eq (key_of op) key ≡ true
      → Run t o (l ∷ []) t o'
      → Effect key op l t o none o'

pub Fades-Run :
    {a b : View} (key : Bytes) → Fades a b → Run a.time (a.records key) [] b.time (b.records key)
Fades-Run {a} {b} key (le, faded) = elim (faded key) [
  | inl same ↦ rw same (wait le stop)
  | inr (gone, (r, there, due)) ↦ rw (gone, there) (wait le (fade r due stop))
]

pub reserve_now-Effect :
    (n : ℕ) (rec : Record) (key : Bytes) (a : View)
    → IsReservation rec
    → let (found, b) = reserve_now n rec a in
      Effect key (reserve_op rec) (acquired rec n) a.time (a.records key) found (b.records key)
unfolding reserve_now claim update
reserve_now-Effect n rec key a (new, _) = elim (Option-cases (a.records rec.key)) [
  | inr (r, there) ↦ rw there refuses
  | inl free ↦ elim (Bool-cases (bytes_eq rec.key key)) [
    | inr e ↦ rw (free, e) (other e)
    | inl e ↦
        let here = bytes_eq_sound rec.key key e in
        rw (free, e, sym here, free)
          (does (bytes_eq_refl rec.key) (acquire rec n (rw new refl) stop))
  ]
]

-- Only the holder of a reserved record passes the compare-and-set.
pub holds_own :
    (token : Bytes) (o : Option Record)
    → holds token o ≡ none
    → (r : Record) × (o ≡ some r) × (is_reserved r.state ≡ true) × (r.token ≡ token)
unfolding holds
holds_own token none h = cc
holds_own token (some r) h = elim (Bool-cases (bytes_eq r.token token)) [
  | inr e ↦ cc
  | inl e ↦ elim (Bool-cases (is_reserved r.state)) [
    | inr e' ↦ cc
    | inl e' ↦ (r, refl, e', bytes_eq_sound r.token token e)
  ]
]

transition-Effect :
    (key : Bytes) (op : Op) (l : Label) (token : Bytes) (t : ℕ) (entry : Option Record)
    (a : Records)
    → ((r : Record)
        → a (key_of op) ≡ some r
        → is_reserved r.state ≡ true
        → r.token ≡ token
        → Run t (some r) (l ∷ []) t entry)
    → let (e, b) = transition (holds token (a (key_of op))) (key_of op) entry a in
      Effect key op l t (a key) e (b key)
unfolding transition update
transition-Effect key op l token t entry a changes =
    elim (Option-cases (holds token (a (key_of op)))) [
      | inr (e, lost) ↦ rw lost refuses
      | inl own ↦ elim (Bool-cases (bytes_eq (key_of op) key)) [
        | inr e ↦ rw (own, e) (other e)
        | inl e ↦
            let here = bytes_eq_sound (key_of op) key e in
            let (r, there, is_open, same) = holds_own token (a (key_of op)) own in
            rw (own, e, sym here, there)
              (does (bytes_eq_refl (key_of op)) (changes r there is_open same))
      ]
    ]

pub complete_now-Effect :
    (key k token payload : Bytes) (n : ℕ) (ttl : Duration) (a : View)
    → let (e, b) = complete_now n k token payload a in
      Effect key
        (complete_op k token payload ttl)
        (committed token payload n)
        a.time
        (a.records key)
        e
        (b.records key)
unfolding complete_now completed_now
complete_now-Effect key k token payload n ttl a =
    transition-Effect key (complete_op k token payload ttl) (committed token payload n) token a.time
      _ a.records (λ r there is_open same. rw (there, sym same) (commit r payload n is_open stop))

pub release_now-Effect :
    (key k token : Bytes) (a : View)
    → let (e, b) = release_now k token a in
      Effect key (release_op k token) (given_back token) a.time (a.records key) e (b.records key)
unfolding release_now
release_now-Effect key k token a =
    transition-Effect key (release_op k token) (given_back token) token a.time none a.records
      (λ r there is_open same. rw (sym same) (give_back r is_open stop))
