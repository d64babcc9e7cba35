-- ===== src/Core/Spec/Expiry.antt =====
-- Expiry only moves forward: a record that is absent at an instant is absent ever after.
use idemlease.Base.{◌≤◌, ◌≡◌, true, false, Option, none, some, arith}
use idemlease.Core.Time.{Time}
use idemlease.Core.Record.{State, reserved, completed, invalid, Record, expired}
use idemlease.Core.Spec.{live}

expired_state_mono :
    (s : State) (r : Record) {t u : Time}
    → r.state ≡ s
    → t ≤ u
    → expired r t ≡ true
    → expired r u ≡ true
unfolding expired
expired_state_mono reserved r e h x = ground arith
expired_state_mono completed r e h x = ground arith
expired_state_mono (invalid n) r e h x = ground arith

pub expired_mono : (r : Record) {t u : Time} → t ≤ u → expired r t ≡ true → expired r u ≡ true
expired_mono r h x = expired_state_mono r.state r (λ i. r.state) h x

pub live-none : (o : Option Record) {t u : Time} → t ≤ u → live t o ≡ none → live u o ≡ none
unfolding live
live-none none h e = e
live-none (some r) {t} {u} h e = ground (arith, expired_mono r {t = t} {u = u} h)

-- A record that is live is the one that is there, and is not expired.
pub live-some :
    (o : Option Record) (t : Time) {r : Record}
    → live t o ≡ some r
    → (o ≡ some r) × (expired r t ≡ false)
unfolding live
live-some none t e = cc
live-some (some r) t e = ground arith

pub live_of_not_expired :
    (o : Option Record) (t : Time) {r : Record}
    → o ≡ some r
    → expired r t ≡ false
    → live t o ≡ some r
unfolding live
live_of_not_expired o t e x = rw (e, x)

pub live_of_expired :
    (o : Option Record) (t : Time) {r : Record} → o ≡ some r → expired r t ≡ true → live t o ≡ none
unfolding live
live_of_expired o t e x = rw (e, x)
