-- ===== src/Redistore/Writes.antt =====
-- One key of the store written or deleted: the records afterwards.
use idemlease.Base.{
  ℕ, ◌+◌, ◌∙◌, ◌<◌, ◌^◌, ◌≡◌, refl, inl, inr, Bytes, bytes_eq, bytes_eq_refl, if◌then◌else◌, Option,
  some, Bool-cases,
}
use mathlib.Core.Path.{subst}
use idemlease.Base.Int.{pos}
use idemlease.Base.Dict.{Dict}
use idemlease.Base.Decimal.{format_int}
use idemlease.Core.Record.{Record}
use idemlease.Core.Spec.{update}
use idemlease.Core.Shared.{View, dated, Fades, Fades-same}
use idemlease.Redistore.{redis_key}
use idemlease.Redistore.Server.{Hash, Redis, IsRedis, put_fields}
use idemlease.Redistore.Written.{IsWritten, record_of}
use idemlease.Core.Shared.Slots.{written-update}
use idemlease.Redistore.Slots.{slot, slots, IsKept, AreKept, bytes_eq-redis_key}

-- The view with another entry under the key.
abbrev pub put : View → Bytes → Option Record → View
put a key o = record a { records = update a.records key o }

module _ {K : Type 0} {r : Redis K} {keys : K → Bytes → Option Hash} {time : K → ℕ}
    (law : IsRedis r keys time) (prefix : Bytes) where
  -- One key of the store written or deleted.
  pub put_lem :
      (key : Bytes) (s s' : K) (o : Option Hash)
      → ((j : Bytes)
          → keys s' (redis_key prefix j)
            ≡ (if bytes_eq key j then o else keys s (redis_key prefix j)))
      → time s' ≡ time s
      → IsKept o
      → AreKept keys time prefix s
      → AreKept keys time prefix s'
        × Fades (put (slots keys time prefix s) key (slot key o)) (slots keys time prefix s')
  put_lem key s s' o same still new kept =
      let (kept', left) =
        written-update slot IsKept key o (λ k. keys s (redis_key prefix k))
          (λ k. keys s' (redis_key prefix k)) same new kept in
      (kept', Fades-same _ _ still left)

  -- `HSET` and `PEXPIRE` in one script.
  hset_pexpire :
      (k j : Bytes) (new : Dict Bytes) (n : ℕ) (s : K)
      → 0 < n
      → n < 2 ^ 63
      → keys (r.pexpire k (format_int (pos n)) (r.hset k new s)) j ≡ (
          if bytes_eq k j
          then some
              (record { fields = (put_fields new (keys s k)).fields; until = some (time s + n) })
          else keys s j)
  hset_pexpire k j new n s low high = elim (Bool-cases (bytes_eq k j)) [
    | inl e ↦
        rw
          (
            law.pexpire_law k j n (r.hset k new s) low high,
            e,
            law.hset_law k k new s,
            law.hset_time k new s,
            bytes_eq_refl k,
          )
          refl
    | inr e ↦
        rw (law.pexpire_law k j n (r.hset k new s) low high, e, law.hset_law k j new s, e) refl
  ]

  -- It leaves the record that the written fields are.
  pub hset_pexpire_lem :
      (key : Bytes) (new : Dict Bytes) (n : ℕ) (s : K) {o : Option Hash} {x : Record}
      → 0 < n
      → n < 2 ^ 63
      → keys s (redis_key prefix key) ≡ o
      → IsWritten (put_fields new o).fields
      → record_of key (put_fields new o).fields ≡ x
      → AreKept keys time prefix s
      → let s' =
          r.pexpire
            (redis_key prefix key)
            (format_int (pos n))
            (r.hset (redis_key prefix key) new s) in
        AreKept keys time prefix s'
        × Fades
            (put (slots keys time prefix s) key (some (dated (time s + n) x)))
            (slots keys time prefix s')
  unfolding slot IsKept
  hset_pexpire_lem key new n s {o} {x} low high there written same kept =
      let k = redis_key prefix key in
      let s' = r.pexpire k (format_int (pos n)) (r.hset k new s) in
      let wrote : Hash = record { fields = (put_fields new o).fields; until = some (time s + n) } in
      let (kept', left) =
        put_lem key s s' (some wrote)
          (λ j.
            rw
              (
                hset_pexpire k (redis_key prefix j) new n s low high,
                bytes_eq-redis_key prefix key j,
                there,
              )
              refl)
          (law.pexpire_time k (format_int (pos n)) (r.hset k new s) ∙ law.hset_time k new s)
          (written, refl) kept in
      (
        kept',
        subst
            (λ y.
              Fades (put (slots keys time prefix s) key (some (dated (time s + n) y)))
                (slots keys time prefix s'))
            same left,
      )
