-- ===== src/Http/Key/Grammar.antt =====
-- Every key that the parser accepts keeps the grammar: 1 to 255 bytes, none a control character.
use idemlease.Base.{ℕ, ◌≤◌, ◌≡◌, ◌≢◌, Bytes, length, All, All-append, Bool-cases, Option-cases}
use idemlease.Base.{false, none, some, [], ◌∷◌, ◌++◌, inl, inr, arith}
use idemlease.Base.{List, not, ltb, ◌==◌, ◌||◌}
use idemlease.Http.Errors.{HttpError}
use idemlease.Http.Key.{
  quote, backslash, key, rejected, has_control, sf_rest, parse_sf_string, in_range, parse_decoded,
  parse_trimmed, parse_key, trim, key_from_header,
}

abbrev pub IsPlain : ℕ → Type 0
IsPlain c = (0x20 ≤ c) × (c ≢ 0x7f)

abbrev pub IsKey : Bytes → Type 0
IsKey k = (1 ≤ length k) × (length k ≤ 255) × All IsPlain k

absurd_none {ℓ} : {A : Type 0} {a : A} {B : Type ℓ} → none ≡ some a → B
absurd_none h = absurd (cc)

absurd_rejected {ℓ} : {e : HttpError} {k : Bytes} {B : Type ℓ} → rejected e ≡ key k → B
absurd_rejected h = absurd (cc)

has_control-IsPlain : (v : Bytes) → has_control v ≡ false → All IsPlain v
unfolding has_control
has_control-IsPlain [] h = tt
has_control-IsPlain (c ∷ cs) h = ground (arith, has_control-IsPlain cs)

sf_rest-IsPlain : (out v k : Bytes) → All IsPlain out → sf_rest out v ≡ some k → All IsPlain k
unfolding sf_rest
sf_rest-IsPlain out [] k p h = cc
sf_rest-IsPlain out (c ∷ []) k p h = let same : out ≡ k = ground arith in rw (← same) p
sf_rest-IsPlain out (c ∷ d ∷ ds) k p h = elim (Bool-cases (c == backslash)) [
  | inl esc ↦ elim (Bool-cases (d == quote || d == backslash)) [
    | inl good ↦
        sf_rest-IsPlain (out ++ d ∷ []) ds k (All-append IsPlain out (d ∷ []) p (ground arith))
          (rw (esc, good) at h)
    | inr bad ↦ absurd_none (rw (esc, bad) at h)
  ]
  | inr plain ↦ elim (Bool-cases (c == quote)) [
    | inl q ↦ absurd_none (rw (plain, q) at h)
    | inr nq ↦ elim (Bool-cases (ltb c 0x20 || ltb 0x7e c)) [
      | inl bad ↦ absurd_none (rw (plain, nq, bad) at h)
      | inr good ↦
          sf_rest-IsPlain (out ++ c ∷ []) (d ∷ ds) k
            (All-append IsPlain out (c ∷ []) p (ground arith)) (rw (plain, nq, good) at h)
    ]
  ]
]

parse_sf_string-IsPlain : (v k : Bytes) → parse_sf_string v ≡ some k → All IsPlain k
unfolding parse_sf_string
parse_sf_string-IsPlain [] k h = absurd_none h
parse_sf_string-IsPlain (c ∷ cs) k h = elim (Bool-cases (ltb (length cs) 1 || not (c == quote))) [
  | inl bad ↦ absurd_none (rw bad at h)
  | inr good ↦ sf_rest-IsPlain [] cs k tt (rw good at h)
]

in_range-IsKey : (v k : Bytes) → All IsPlain v → in_range v ≡ key k → IsKey k
unfolding in_range
in_range-IsKey v k p h =
    let (same, lo, hi) : (v ≡ k) × (1 ≤ length v) × (length v ≤ 255) = ground arith in
    rw (← same) (lo, hi, p)

parse_trimmed-IsKey : (v k : Bytes) → parse_trimmed v ≡ key k → IsKey k
unfolding parse_trimmed parse_decoded
parse_trimmed-IsKey [] k h = cc
parse_trimmed-IsKey (c ∷ cs) k h = elim (Bool-cases (c == quote)) [
  | inl q ↦ elim (Option-cases (parse_sf_string (c ∷ cs))) [
    | inl bad ↦ absurd_rejected (rw (q, bad) at h)
    | inr (v, good) ↦ in_range-IsKey v k (parse_sf_string-IsPlain _ v good) (rw (q, good) at h)
  ]
  | inr nq ↦ elim (Bool-cases (has_control (c ∷ cs))) [
    | inl bad ↦ absurd_rejected (rw (nq, bad) at h)
    | inr good ↦ in_range-IsKey (c ∷ cs) k (has_control-IsPlain (c ∷ cs) good) (rw (nq, good) at h)
  ]
]

-- A key that the header parser accepts has 1 to 255 bytes, and none of them is a control character,
-- in the raw form and in the quoted form; in particular no key holds the byte 0.
pub key_from_header-IsKey :
    (values : List Bytes) (k : Bytes) → key_from_header values ≡ key k → IsKey k
unfolding key_from_header parse_key
key_from_header-IsKey [] k h = cc
key_from_header-IsKey (v ∷ []) k h = parse_trimmed-IsKey (trim v) k h
key_from_header-IsKey (v ∷ w ∷ vs) k h = cc
