-- ===== src/Redistore/Slots.antt =====
-- The records in the key space: what a key of the store holds, and until when.
use idemlease.Base.{
  ℕ, ◌≡◌, refl, ◌⊎◌, inl, inr, Bytes, bytes_eq, true, Option, none, some, [], ◌∷◌, arith,
}
use idemlease.Core.Record.{Record}
use idemlease.Core.Shared.{View, dated, IsOver, Fades, Fades-refl}
use idemlease.Redistore.{now, redis_key}
use idemlease.Core.Node.{Node}
use idemlease.Core.Node
use idemlease.Redistore.Server.{Hash, Redis, IsRedis, Ages, has_ttl}
use idemlease.Redistore.Written.{IsWritten, record_of}

abbrev pub deadline : Option ℕ → ℕ
deadline none = 0
deadline (some u) = u

-- The record under a key, with the end of its TTL.
unfoldable pub slot : Bytes → Option Hash → Option Record
slot key none = none
slot key (some h) = some (dated (deadline h.until) (record_of key h.fields))

-- Every hash of the store is one that it wrote, with a TTL.
unfoldable pub IsKept : Option Hash → Type 0
IsKept none = Unit
IsKept (some h) = IsWritten h.fields × (has_ttl h.until ≡ true)

pub bytes_eq-redis_key :
    (prefix k j : Bytes) → bytes_eq (redis_key prefix k) (redis_key prefix j) ≡ bytes_eq k j
unfolding bytes_eq
bytes_eq-redis_key [] k j = refl
bytes_eq-redis_key (c ∷ cs) k j = ground (arith, bytes_eq-redis_key cs k j)

pub aged :
    (key : Bytes) (t : ℕ) (o o' : Option Hash)
    → Ages t o o'
    → IsKept o
    → IsKept o' × ((slot key o' ≡ slot key o) ⊎ ((slot key o' ≡ none) × IsOver (slot key o) t))
unfolding slot IsKept
aged key t none o' e kept = rw e (tt, inl refl)
aged key t (some h) o' (inl e) kept = rw e (kept, inl refl)
aged key t (some h) o' (inr (e, (u, until_is, due))) kept =
    rw (e, until_is) (tt, inr (refl, (_, refl, due)))

module _ {K : Type 0} (holds : K → Bytes → Option Hash) (time : K → ℕ) (prefix : Bytes) where
  abbrev pub slots : K → View
  slots s = record { time = time s; records = λ key. slot key (holds s (redis_key prefix key)) }

  -- The key space as the store keeps it.
  abbrev pub AreKept : K → Type 0
  AreKept s = (key : Bytes) → IsKept (holds s (redis_key prefix key))

module _ {K : Type 0} {r : Redis K} {holds : K → Bytes → Option Hash} {time : K → ℕ}
    (law : IsRedis r holds time) (prefix : Bytes) where
  pub pass_lem :
      (d : ℕ) (s : K)
      → AreKept holds time prefix s
      → AreKept holds time prefix (r.pass d s)
        × Fades (slots holds time prefix s) (slots holds time prefix (r.pass d s))
  pass_lem d s kept = (
    λ key. (aged key _ _ _ (law.pass_law d (redis_key prefix key) s) (kept key)).0,
    (
      law.pass_time d s,
      λ key. (aged key _ _ _ (law.pass_law d (redis_key prefix key) s) (kept key)).1,
    ),
  )

  pub now_lem :
      (w : Node K)
      → AreKept holds time prefix w.server
      → let (t, w') = now r prefix w in
        AreKept holds time prefix w'.server
        × Fades (slots holds time prefix w.server) (slots holds time prefix w'.server)
  now_lem w kept =
      Node.now_lem r.pass
        (λ s.
          AreKept holds time prefix s
          × Fades (slots holds time prefix w.server) (slots holds time prefix s))
        w (kept, Fades-refl _) (λ d. pass_lem d w.server kept)
