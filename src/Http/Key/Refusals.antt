-- ===== src/Http/Key/Refusals.antt =====
-- A header without a key is refused as missing or as invalid.
use idemlease.Base.{
  ltb, ◌==◌, ◌||◌, length, Bool-cases, inl, inr, Bytes, Option, none, some, List, [], ◌∷◌,
}
use idemlease.Http.Errors.Rejection.{IsRejection, missing, invalid}
use idemlease.Http.Key.{
  Parsed, key, rejected, key_from_header, parse_key, parse_trimmed, parse_decoded, parse_sf_string,
  in_range, has_control, trim, quote,
}

-- The error, if there is one, is one that the middleware answers with 400.
abbrev pub IsAnswerable : Parsed → Type 0
IsAnswerable (rejected e) = IsRejection 400 e
IsAnswerable (key k) = Unit

in_range-IsAnswerable : (k : Bytes) → IsAnswerable (in_range k)
unfolding in_range
in_range-IsAnswerable k = elim (Bool-cases (length k == 0 || ltb 255 (length k))) [
  | inl bad ↦ rw bad invalid
  | inr good ↦ rw good tt
]

parse_decoded-IsAnswerable : (o : Option Bytes) → IsAnswerable (parse_decoded o)
unfolding parse_decoded
parse_decoded-IsAnswerable none = invalid
parse_decoded-IsAnswerable (some k) = in_range-IsAnswerable k

parse_trimmed-IsAnswerable : (k : Bytes) → IsAnswerable (parse_trimmed k)
unfolding parse_trimmed
parse_trimmed-IsAnswerable [] = invalid
parse_trimmed-IsAnswerable (c ∷ cs) = elim (Bool-cases (c == quote)) [
  | inl quoted ↦ rw quoted (parse_decoded-IsAnswerable (parse_sf_string (c ∷ cs)))
  | inr raw ↦ elim (Bool-cases (has_control (c ∷ cs))) [
    | inl bad ↦ rw (raw, bad) invalid
    | inr good ↦ rw (raw, good) (in_range-IsAnswerable (c ∷ cs))
  ]
]

pub key_from_header-IsAnswerable : (vs : List Bytes) → IsAnswerable (key_from_header vs)
unfolding key_from_header parse_key
key_from_header-IsAnswerable [] = missing
key_from_header-IsAnswerable (v ∷ []) = parse_trimmed-IsAnswerable (trim v)
key_from_header-IsAnswerable (v ∷ w ∷ vs) = invalid
