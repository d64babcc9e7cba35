-- ===== src/Redistore/Steps.antt =====
-- What each script does to the records of the key space, and what it replies.
use idemlease.Base.{
  ℕ, ◌-◌, ◌*◌, ap, ◌<◌, ◌^◌, ◌≡◌, refl, ◌∙◌, inl, inr, Bytes, true, Option, none, some, [],
  Option-cases,
}
use mathlib.Core.Path.{subst}
use idemlease.Base.Int.{pos}
use idemlease.Base.Decimal.{format_int, to_int64}
use idemlease.Base.Text.{codes}
use idemlease.Core.Time.{millisecond, Time, add, zero_time}
use idemlease.Core.Record.{Record, reserved}
use idemlease.Core.Store.{Result}
use idemlease.Core.Spec.{claim}
use idemlease.Core.Shared.{bare, Fades, Fades-refl, reserve_now, IsReservation}
use idemlease.Redistore.{redis_key}
use idemlease.Redistore.Server.{Hash, Redis, IsRedis, Value, Values, text, array, has_ttl}
use idemlease.Redistore.Scripts.{state_reserved, flat, read_live, reserve_script}
use idemlease.Redistore.Reply.{record_from_reply, with_ttl, set_deadline, unix_milli, read_fields}
use idemlease.Redistore.Written.{
  record_from_fields-written, bare-set_deadline, read_fields-flat, reserved_fields,
  reserved-IsWritten, record_of-reserved,
}
use idemlease.Redistore.Slots.{slot, slots, IsKept, AreKept}
use idemlease.Redistore.Writes.{hset_pexpire_lem}

-- The reply of the script of `Reserve`, for the record that it found.
abbrev pub Reads : Bytes → Option Record → Value → Type 0
Reads key none v = v ≡ text (codes "OK")
Reads key (some there) v =
    (vs : Values) × (v ≡ array vs)
    × ((t : Time)
        → (x : Record) × (record_from_reply key vs t ≡ Result.ok x) × (bare x ≡ bare there))

has_ttl_lem : (o : Option ℕ) → has_ttl o ≡ true → (n : ℕ) × (o ≡ some n)
has_ttl_lem none h = cc
has_ttl_lem (some n) h = (n, refl)

bare_new :
    (rec : Record)
    → IsReservation rec
    → record {
      key = rec.key;
      fingerprint = rec.fingerprint;
      state = reserved;
      token = rec.token;
      lease_expires_at = zero_time;
      record_expires_at = zero_time;
      payload = [];
    }
      ≡ bare rec
bare_new rec (is_new, no_payload) = rw (is_new, no_payload) refl

module _ {K : Type 0} {r : Redis K} {keys : K → Bytes → Option Hash} {time : K → ℕ}
    (law : IsRedis r keys time) (prefix : Bytes) where
  -- What the scripts read of a record that is there.
  read_live_lem :
      (key : Bytes) (s : K) (h : Hash)
      → keys s (redis_key prefix key) ≡ some h
      → IsKept (some h)
      → Reads key (slot key (some h)) (read_live r (redis_key prefix key) s)
  unfolding read_live IsKept slot record_from_reply with_ttl
  read_live_lem key s h e (written, ttl) =
      let k = redis_key prefix key in
      let (n, left) = has_ttl_lem h.until ttl in
      let (x, read, same) =
        record_from_fields-written key h.fields (read_fields (flat (r.hgetall k s)) [])
          (λ name. rw (read_fields-flat (r.hgetall k s) [], law.hgetall_law k name s, e) refl)
          written in
      (
        _,
        refl,
        λ t.
            let deadline = add t (to_int64 ((n - time s) * millisecond)) in
            (
              set_deadline x.state deadline x,
              rw (law.pttl_law k s h e, left, read) refl,
              bare-set_deadline x.state deadline x ∙ ap bare same,
            ),
      )

  -- `reserveScript`
  pub reserve_step :
      (rec : Record) (lease : Time) (n : ℕ) (s : K)
      → 0 < n
      → n < 2 ^ 63
      → IsReservation rec
      → AreKept keys time prefix s
      → let (v, s') =
          reserve_script r
            (redis_key prefix rec.key)
            state_reserved
            rec.token
            rec.fingerprint
            (format_int (unix_milli lease))
            (format_int (pos n))
            s in
        let (found, a) = reserve_now n rec (slots keys time prefix s) in
        AreKept keys time prefix s' × Fades a (slots keys time prefix s') × Reads rec.key found v
  unfolding reserve_script reserve_now claim slot
  reserve_step rec lease n s low high (is_new, no_payload) kept =
      let k = redis_key prefix rec.key in
      elim (Option-cases (keys s k)) [
        | inl free ↦
            rw (law.exists_law k s, free)
              (let (kept', left) =
                  hset_pexpire_lem law prefix rec.key
                    (reserved_fields rec.token rec.fingerprint lease) n s low high free
                    (reserved-IsWritten rec.token rec.fingerprint lease)
                    (record_of-reserved rec.key rec.token rec.fingerprint lease
                      ∙ bare_new rec (is_new, no_payload))
                    kept in
                (kept', left, refl))
        | inr (h, there) ↦
            rw (law.exists_law k s, there)
              (
                kept,
                Fades-refl _,
                read_live_lem rec.key s h there (subst IsKept there (kept rec.key)),
              )
      ]
