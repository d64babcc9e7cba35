-- ===== src/Redistore/Transitions.antt =====
-- What the scripts of `Complete` and `Release` do to the records of the key space, and what they reply.
use idemlease.Base.{
  ℕ, ◌+◌, ◌<◌, ◌^◌, ◌≡◌, refl, inl, inr, Bytes, bytes_eq, Option, none, some, Bool-cases,
  Option-cases,
}
use mathlib.Core.Path.{subst}
use idemlease.Base.Int.{pos}
use idemlease.Base.Decimal.{format_int}
use idemlease.Base.Text.{codes}
use idemlease.Core.Time.{Time}
use idemlease.Core.Record.{Record}
use idemlease.Core.Store.{Sentinel, is}
use idemlease.Core.Spec.{transition, holds, completed_record}
use idemlease.Core.Shared.{Fades, Fades-refl, completed_now, complete_now, release_now, Refused}
use idemlease.Redistore.{redis_key}
use idemlease.Redistore.Server.{Hash, Redis, IsRedis, Value, text}
use idemlease.Redistore.Scripts.{guarded, complete_script, release_script}
use idemlease.Redistore.Reply.{field, unix_milli, status_to_err}
use idemlease.Redistore.Written.{
  record_of, completed_fields, completed-IsWritten, record_of-completed,
}
use idemlease.Redistore.Slots.{slot, slots, IsKept, AreKept, bytes_eq-redis_key}
use idemlease.Redistore.Writes.{put, put_lem, hset_pexpire_lem}

-- A status that stands for the sentinel.
abbrev pub Says : Option Sentinel → Value → Type 0
Says e v = (status : Bytes) × (v ≡ text status) × Refused e (status_to_err (text status))

module _ {K : Type 0} {r : Redis K} {keys : K → Bytes → Option Hash} {time : K → ℕ}
    (law : IsRedis r keys time) (prefix : Bytes) where
  -- The token compare-and-set in front of a transition that does what it says.
  guarded_step :
      (key token : Bytes) (done : Value × K) (entry : Option Record) (s : K)
      → AreKept keys time prefix s
      → ((h : Hash)
          → keys s (redis_key prefix key) ≡ some h
          → (done.0 ≡ text (codes "OK"))
            × AreKept keys time prefix done.1
            × Fades (put (slots keys time prefix s) key entry) (slots keys time prefix done.1))
      → let k = redis_key prefix key in
        let (v, s') = guarded r (r.hget k (codes "token") s) token k done s in
        let (e, a) =
          transition
            (holds token ((slots keys time prefix s).records key))
            key
            entry
            (slots keys time prefix s).records in
        AreKept keys time prefix s'
        × Fades (record (slots keys time prefix s) { records = a }) (slots keys time prefix s')
        × Says e v
  unfolding guarded slot holds transition is status_to_err record_of field IsKept bytes_eq
  guarded_step key token done entry s kept does =
      let k = redis_key prefix key in
      elim (Option-cases (keys s k)) [
        | inl free ↦
            rw (law.hget_law k (codes "token") s, free)
              (kept, Fades-refl _, (_, refl, (_, refl, inr refl)))
        | inr (h, there) ↦
            let (written, _) = subst IsKept there (kept key) in
            let (t, token_is) = written.token_there in
            elim (Bool-cases (bytes_eq t token)) [
              | inr other ↦
                  rw (law.hget_law k (codes "token") s, there, token_is, other)
                    (kept, Fades-refl _, (_, refl, (_, refl, inl refl)))
              | inl own ↦ elim written.state_known [
                | inl one ↦
                    rw
                      (
                        law.hget_law k (codes "token") s,
                        there,
                        token_is,
                        own,
                        law.hget_law k (codes "state") s,
                        there,
                        one,
                      )
                      (let (said, kept', left) = does h there in (kept', left, (_, said, refl)))
                | inr two ↦
                    rw
                      (
                        law.hget_law k (codes "token") s,
                        there,
                        token_is,
                        own,
                        law.hget_law k (codes "state") s,
                        there,
                        two,
                      )
                      (kept, Fades-refl _, (_, refl, (_, refl, inr refl)))
              ]
            ]
      ]

  -- `completeScript`
  pub complete_step :
      (key token payload : Bytes) (until : Time) (n : ℕ) (s : K)
      → 0 < n
      → n < 2 ^ 63
      → AreKept keys time prefix s
      → let (v, s') =
          complete_script r
            (redis_key prefix key)
            token
            payload
            (format_int (unix_milli until))
            (format_int (pos n))
            s in
        let (e, a) = complete_now n key token payload (slots keys time prefix s) in
        AreKept keys time prefix s' × Fades a (slots keys time prefix s') × Says e v
  unfolding complete_script complete_now completed_now slot IsKept record_of completed_record
  complete_step key token payload until n s low high kept =
      guarded_step key token _
        (completed_now payload (time s + n) ((slots keys time prefix s).records key)) s kept
        (λ h there.
          let (written, _) = subst IsKept there (kept key) in
          let (kept', left) =
            hset_pexpire_lem law prefix key (completed_fields payload until) n s low high there
              (completed-IsWritten h.fields payload until written)
              (record_of-completed key h.fields payload until) kept in
          (refl, kept', rw there left))

  -- `releaseScript`
  pub release_step :
      (key token : Bytes) (s : K)
      → AreKept keys time prefix s
      → let (v, s') = release_script r (redis_key prefix key) token s in
        let (e, a) = release_now key token (slots keys time prefix s) in
        AreKept keys time prefix s' × Fades a (slots keys time prefix s') × Says e v
  unfolding release_script release_now slot IsKept
  release_step key token s kept = guarded_step key token _ none s kept (λ h there.
      let k = redis_key prefix key in
      let (kept', left) =
        put_lem law prefix key s (r.del k s) none
          (λ j. rw (law.del_law k (redis_key prefix j) s, bytes_eq-redis_key prefix key j) refl)
          (law.del_time k s) tt kept in
      (refl, kept', left))
