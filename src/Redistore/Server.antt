-- ===== src/Redistore/Server.antt =====
-- Redis as the scripts of redistore/redistore.go call it: commands on a key space, with what its
-- documentation says of them. A script runs at one instant of the server's clock.
use idemlease.Base.{
  ℕ, ◌+◌, ◌-◌, ◌<◌, ◌≤◌, ◌^◌, ◌≡◌, ◌⊎◌, Bytes, bytes_eq, if◌then◌else◌, Bool, true, false, Option,
  none, some, [], ◌∷◌,
}
use idemlease.Base.Int.{ℤ, pos, negsuc}
use idemlease.Base.Dict.{Dict, lookup, insert}
use idemlease.Base.Decimal.{format_int}

-- What go-redis hands over: a string, an integer, nil, or a list of these.
mutual
  pub data Value : Type 0 where
    text : Bytes → Value
    number : ℤ → Value
    nothing : Value
    array : Values → Value

  pub data Values : Type 0 where
    end : Values
    item : Value → Values → Values

-- The hash under a key: its fields, and the end of its TTL if it has one, in milliseconds of the
-- server's clock.
pub record Hash : Type 0 where
  pub fields : Dict Bytes
  pub until : Option ℕ

-- The commands over a key space of any type. `pass` lets nanoseconds go by.
pub record Redis (K : Type 0) : Type 0 where
  pub exists : Bytes → K → Bool
  pub pttl : Bytes → K → ℤ
  pub hgetall : Bytes → K → Dict Bytes
  pub hget : Bytes → Bytes → K → Option Bytes
  pub hset : Bytes → Dict Bytes → K → K
  pub pexpire : Bytes → Bytes → K → K
  pub del : Bytes → K → K
  pub pass : ℕ → K → K

abbrev pub is_there : Option Hash → Bool
is_there none = false
is_there (some h) = true

abbrev pub field_of : Bytes → Option Hash → Option Bytes
field_of name none = none
field_of name (some h) = lookup name h.fields

-- `HSET` writes the fields in turn, into a new hash with no TTL where there is none.
abbrev pub put_all : Dict Bytes → Dict Bytes → Dict Bytes
put_all [] fields = fields
put_all ((name, v) ∷ more) fields = put_all more (insert name v fields)

abbrev pub put_fields : Dict Bytes → Option Hash → Hash
put_fields new none = record { fields = put_all new []; until = none }
put_fields new (some h) = record h { fields = put_all new h.fields }

-- `PEXPIRE` sets when the TTL of a key that is there ends.
abbrev pub expire_at : ℕ → Option Hash → Option Hash
expire_at u none = none
expire_at u (some h) = some (record h { until = some u })

abbrev pub has_ttl : Option ℕ → Bool
has_ttl none = false
has_ttl (some n) = true

-- What `PTTL` says at a time of a key that is there: -1 where it has no TTL.
abbrev pub ttl_of : ℕ → Option ℕ → ℤ
ttl_of t none = negsuc 0
ttl_of t (some u) = pos (u - t)

-- By that time a key is as it was, or gone because its TTL has ended.
abbrev pub Ages : ℕ → Option Hash → Option Hash → Type 0
Ages t none later = later ≡ none
Ages t (some h) later =
    (later ≡ some h) ⊎ ((later ≡ none) × ((u : ℕ) × (h.until ≡ some u) × (u ≤ t)))

-- The documentation of the commands, by what the key space holds and by the server's clock, which
-- stands still while a script runs.
pub record IsRedis {K : Type 0} (r : Redis K) (holds : K → Bytes → Option Hash) (time : K → ℕ)
    : Type 0 where
  pub exists_law : (k : Bytes) (s : K) → r.exists k s ≡ is_there (holds s k)
  pub pttl_law :
      (k : Bytes) (s : K) (h : Hash) → holds s k ≡ some h → r.pttl k s ≡ ttl_of (time s) h.until
  pub hgetall_law :
      (k name : Bytes) (s : K)
      → lookup name (put_all (r.hgetall k s) []) ≡ field_of name (holds s k)
  pub hget_law : (k name : Bytes) (s : K) → r.hget k name s ≡ field_of name (holds s k)
  pub hset_law :
      (k j : Bytes) (new : Dict Bytes) (s : K)
      → holds (r.hset k new s) j
        ≡ (if bytes_eq k j then some (put_fields new (holds s k)) else holds s j)
  pub pexpire_law :
      (k j : Bytes) (n : ℕ) (s : K)
      → 0 < n
      → n < 2 ^ 63
      → holds (r.pexpire k (format_int (pos n)) s) j
        ≡ (if bytes_eq k j then expire_at (time s + n) (holds s k) else holds s j)
  pub del_law :
      (k j : Bytes) (s : K) → holds (r.del k s) j ≡ (if bytes_eq k j then none else holds s j)
  pub hset_time : (k : Bytes) (new : Dict Bytes) (s : K) → time (r.hset k new s) ≡ time s
  pub pexpire_time : (k ms : Bytes) (s : K) → time (r.pexpire k ms s) ≡ time s
  pub del_time : (k : Bytes) (s : K) → time (r.del k s) ≡ time s
  pub pass_time : (d : ℕ) (s : K) → time s ≤ time (r.pass d s)
  pub pass_law :
      (d : ℕ) (k : Bytes) (s : K) → Ages (time (r.pass d s)) (holds s k) (holds (r.pass d s) k)
