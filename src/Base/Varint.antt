-- ===== src/Base/Varint.antt =====
-- Go's `encoding/binary`: unsigned varints of 64-bit numbers.
use idemlease.Base.{ℕ, zero, suc, ◌+◌, ◌*◌, ◌/◌, ◌%◌, ◌^◌, ◌<◌, ◌≡◌, Bytes, ltb, ◌==◌, arith}
use idemlease.Base.{if◌then◌else◌, Bool-cases, ◌&&◌, Option, none, some, [], ◌∷◌, ◌++◌, inl, inr}
use native.Mathlib.Nat.{pow-suc}
use mathlib.Core.Option.{map}

abbrev pub IsU64 : ℕ → Type 0
IsU64 v = v < 2 ^ 64

-- Groups of seven bits from the lowest on, for a number of at most `more + 1` groups.
groups : ℕ → ℕ → Bytes
groups zero v = v ∷ []
groups (suc more) v =
    let rest = groups more (v / 128) in if ltb v 128 then v ∷ [] else (v % 128 + 128) ∷ rest

-- `AppendUvarint`, on the bytes that it appends: a 64-bit number has at most ten groups.
unfoldable pub uvarint_bytes : ℕ → Bytes
unfolding groups
uvarint_bytes v = groups 9 v

-- `Uvarint` with the bytes behind the number; `none` where Go's count is 0 (the input ends inside the
-- number) or negative (it does not fit 64 bits). The argument is the number of bytes still allowed.
read_groups : ℕ → Bytes → Option (ℕ × Bytes)
read_groups left [] = none
read_groups zero (b ∷ bs) = none
read_groups (suc left) (b ∷ bs) =
    let more = read_groups left bs in
    if ltb b 128
    then (if left == 0 && ltb 1 b then none else some (b, bs))
    else map (λ r. (b % 128 + 128 * r.0, r.1)) more

pub read_uvarint : Bytes → Option (ℕ × Bytes)
unfolding read_groups
read_uvarint buf = read_groups 10 buf

read_groups-groups :
    (more v : ℕ) (rest : Bytes)
    → v < 2 * 128 ^ more
    → read_groups (suc more) (groups more v ++ rest) ≡ some (v, rest)
unfolding read_groups groups
read_groups-groups zero v rest h = ground arith
read_groups-groups (suc more) v rest h = elim (Bool-cases (ltb v 128)) [
  | inl last ↦ rw (last, last) (ground arith)
  | inr long ↦
      let fits : v / 128 < 2 * 128 ^ more = omega (arith, pow-suc 128 more) in
      rw long (ground (arith, read_groups-groups more (v / 128) rest fits))
]

-- Every 64-bit number is read back from its encoding, whatever bytes follow.
pub read_uvarint-bytes :
    (v : ℕ) (rest : Bytes) → IsU64 v → read_uvarint (uvarint_bytes v ++ rest) ≡ some (v, rest)
unfolding read_uvarint uvarint_bytes
read_uvarint-bytes v rest h = read_groups-groups 9 v rest (omega arith)
