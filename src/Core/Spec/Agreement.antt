-- ===== src/Core/Spec/Agreement.antt =====
-- The operations of the specification do not tell agreeing stores apart, and keep the agreement.
use idemlease.Base.{◌≤◌, ◌≡◌, refl, Bytes, Option, none, some, arith}
use idemlease.Core.Time.{Time, Duration}
use idemlease.Core.Record.{Record}
use idemlease.Core.Store.{Sentinel}
use idemlease.Core.Spec.{
  Records, Agrees, live, update, claim, reserve_at, transition, complete_at, release_at,
}

pub Agrees-refl : (t : Time) (a : Records) → Agrees t a a
Agrees-refl t a = record { same = λ k u h. refl }

pub Agrees-trans : {t : Time} {a b c : Records} → Agrees t a b → Agrees t b c → Agrees t a c
Agrees-trans ab bc = record { same = λ k u h. cc (ab.same k u h, bc.same k u h) }

pub Agrees-later : {t u : Time} {a b : Records} → t ≤ u → Agrees t a b → Agrees u a b
Agrees-later h ab = record { same = λ k v hv. ab.same k v (omega arith) }

pub Agrees-update :
    {t : Time} {a b : Records} (key : Bytes) (o : Option Record)
    → Agrees t a b
    → Agrees t (update a key o) (update b key o)
unfolding update
Agrees-update key o ab = record { same = λ k u h. ground (arith, ab.same k u h) }

-- The same answer, and stores that agree.
abbrev pub Matches : {A : Type 0} → Time → A × Records → A × Records → Type 0
Matches t (x, a) (y, b) = (x ≡ y) × Agrees t a b

claim-Matches :
    (o : Option Record) (rec : Record) {t : Time} {a b : Records}
    → Agrees t a b
    → Matches t (claim o rec a) (claim o rec b)
unfolding claim
claim-Matches (some r) rec ab = (refl, ab)
claim-Matches none rec ab = (refl, Agrees-update rec.key (some rec) ab)

transition-Matches :
    (e : Option Sentinel) (key : Bytes) (o : Option Record) {t : Time} {a b : Records}
    → Agrees t a b
    → Matches t (transition e key o a) (transition e key o b)
unfolding transition
transition-Matches (some e) key o ab = (refl, ab)
transition-Matches none key o ab = (refl, Agrees-update key o ab)

pub reserve_at-Matches :
    {t : Time} (rec : Record) {a b : Records}
    → Agrees t a b
    → Matches t (reserve_at t rec a) (reserve_at t rec b)
unfolding reserve_at
reserve_at-Matches {t} rec {a} {b} ab =
    rw (ab.same rec.key t (omega arith)) (claim-Matches (live t (b rec.key)) rec ab)

pub complete_at-Matches :
    {t : Time} (key token payload : Bytes) (ttl : Duration) {a b : Records}
    → Agrees t a b
    → Matches t (complete_at t key token payload ttl a) (complete_at t key token payload ttl b)
unfolding complete_at
complete_at-Matches {t} key token payload ttl ab =
    rw (ab.same key t (omega arith)) (transition-Matches _ key _ ab)

pub release_at-Matches :
    {t : Time} (key token : Bytes) {a b : Records}
    → Agrees t a b
    → Matches t (release_at t key token a) (release_at t key token b)
unfolding release_at
release_at-Matches {t} key token ab =
    rw (ab.same key t (omega arith)) (transition-Matches _ key none ab)
