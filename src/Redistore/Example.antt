-- ===== src/Redistore/Example.antt =====
-- A key space that does what the documentation says of Redis: a clock, and a function from keys to
-- hashes.
use idemlease.Base.{
  ℕ, ◌+◌, arith, ◌/◌, leb, ◌≡◌, refl, inl, inr, Bytes, bytes_eq, if◌then◌else◌, Bool-cases, Option,
  none, some, [], ◌∷◌, ◌++◌,
}
use idemlease.Base.Int.{ℤ, pos, negsuc}
use idemlease.Base.Dict.{Dict, lookup, insert, lookup-insert}
use idemlease.Base.Decimal.{parse_int, parse_int-format_int}
use idemlease.Redistore.Server.{
  Hash, Redis, IsRedis, Ages, is_there, field_of, put_all, put_fields, expire_at, ttl_of,
}

pub record KeySpace : Type 0 where
  pub time : ℕ
  pub hashes : Bytes → Option Hash

abbrev pub holds : KeySpace → Bytes → Option Hash
holds s k = s.hashes k

abbrev pub time_of : KeySpace → ℕ
time_of s = s.time

-- The fields with the one that counts last.
fields_of : Dict Bytes → Dict Bytes
fields_of [] = []
fields_of ((name, v) ∷ d) = fields_of d ++ ((name, v) ∷ [])

put_all_append : (a b acc : Dict Bytes) → put_all (a ++ b) acc ≡ put_all b (put_all a acc)
put_all_append [] b acc = refl
put_all_append ((name, v) ∷ a) b acc = put_all_append a b (insert name v acc)

lookup-fields_of :
    (name : Bytes) (d : Dict Bytes) → lookup name (put_all (fields_of d) []) ≡ lookup name d
unfolding fields_of lookup
lookup-fields_of name [] = refl
lookup-fields_of name ((j, v) ∷ d) =
    rw (put_all_append (fields_of d) ((j, v) ∷ []) [], lookup-insert, lookup-fields_of name d) refl

all_fields : Option Hash → Dict Bytes
unfolding fields_of
all_fields none = []
all_fields (some h) = fields_of h.fields

lookup-all_fields :
    (name : Bytes) (o : Option Hash) → lookup name (put_all (all_fields o) []) ≡ field_of name o
unfolding all_fields lookup
lookup-all_fields name none = refl
lookup-all_fields name (some h) = lookup-fields_of name h.fields

ttl_at : ℕ → Option Hash → ℤ
ttl_at t none = negsuc 1
ttl_at t (some h) = ttl_of t h.until

expire : ℕ → Option ℤ → Option Hash → Option Hash
expire t (some (pos n)) o = expire_at (t + n) o
expire t _ o = none

-- What is there at a time: a hash whose TTL has ended is gone.
older : ℕ → Option ℕ → Option Hash → Option Hash
older t until none = none
older t none (some h) = some h
older t (some u) (some h) = if leb u t then none else some h

older_at : ℕ → Option Hash → Option Hash
unfolding older
older_at t none = none
older_at t (some h) = older t h.until (some h)

older-Ages :
    (t : ℕ) (until : Option ℕ) (h : Hash)
    → h.until ≡ until
    → Ages t (some h) (older t until (some h))
unfolding older
older-Ages t none h e = inl refl
older-Ages t (some u) h e = elim (Bool-cases (leb u t)) [
  | inl gone ↦ rw gone (inr (refl, (u, e, ground (arith, gone))))
  | inr still ↦ rw still (inl refl)
]

older_at-Ages : (t : ℕ) (o : Option Hash) → Ages t o (older_at t o)
unfolding older_at
older_at-Ages t none = refl
older_at-Ages t (some h) = older-Ages t h.until h refl

-- The key space with another hash, or none, under the key.
abbrev set_hash : Bytes → Option Hash → KeySpace → KeySpace
set_hash k o s = record s { hashes = λ j. if bytes_eq k j then o else s.hashes j }

unfoldable pub redis : Redis KeySpace
unfolding all_fields ttl_at expire older_at
redis = record {
  exists = λ k s. is_there (s.hashes k);
  pttl = λ k s. ttl_at s.time (s.hashes k);
  hgetall = λ k s. all_fields (s.hashes k);
  hget = λ k name s. field_of name (s.hashes k);
  hset = λ k new s. set_hash k (some (put_fields new (s.hashes k))) s;
  pexpire = λ k ms s. set_hash k (expire s.time (parse_int ms) (s.hashes k)) s;
  del = λ k s. set_hash k none s;
  pass = λ d s. record {
    time = s.time + d / 1000000;
    hashes = λ k. older_at (s.time + d / 1000000) (s.hashes k);
  };
}

pub redis-IsRedis : IsRedis redis holds time_of
unfolding ttl_at expire redis
redis-IsRedis = record {
  exists_law = λ k s. refl;
  pttl_law = λ k s h there. rw there refl;
  hgetall_law = λ k name s. lookup-all_fields name (s.hashes k);
  hget_law = λ k name s. refl;
  hset_law = λ k j new s. refl;
  pexpire_law = λ k j n s low high. rw (parse_int-format_int (pos n) high) refl;
  del_law = λ k j s. refl;
  hset_time = λ k new s. refl;
  pexpire_time = λ k ms s. refl;
  del_time = λ k s. refl;
  pass_time = λ d s. omega arith;
  pass_law = λ d k s. older_at-Ages (s.time + d / 1000000) (s.hashes k);
}
