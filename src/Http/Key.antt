-- ===== src/Http/Key.antt =====
-- httpidem/key.go: the grammar of the Idempotency-Key header. A string is its bytes.
use idemlease.Base.{ℕ, ◌+◌, Bytes, ltb, leb, ◌==◌, length, if◌then◌else◌, Bool, true, false}
pub mod Grammar
pub mod Forms
pub mod Scope
pub mod Refusals
mod Tests
use idemlease.Base.{not, ◌||◌, Option, none, some, List, [], ◌∷◌, ◌++◌}
use idemlease.Http.Errors.{HttpError, key_missing, key_invalid}

pub data Parsed : Type 0 where
  key : Bytes → Parsed
  rejected : HttpError → Parsed

abbrev pub quote : ℕ
quote = 0x22

abbrev pub backslash : ℕ
backslash = 0x5c

abbrev pub is_ows : ℕ → Bool
is_ows c = c == 0x20 || c == 0x09

-- `strings.Trim(value, " \t")`: first what stands in front, then what stands behind.
unfoldable pub trim_left : Bytes → Bytes
trim_left [] = []
trim_left (c ∷ cs) = if is_ows c then trim_left cs else c ∷ cs

trim_right_onto : ℕ → Bytes → Bytes
trim_right_onto c [] = if is_ows c then [] else c ∷ []
trim_right_onto c (d ∷ ds) = c ∷ d ∷ ds

unfoldable pub trim_right : Bytes → Bytes
unfolding trim_right_onto
trim_right [] = []
trim_right (c ∷ cs) = trim_right_onto c (trim_right cs)

unfoldable pub trim : Bytes → Bytes
unfolding trim_left trim_right
trim v = trim_right (trim_left v)

-- `c <= 0x1F || c == 0x7F`
abbrev pub is_control : ℕ → Bool
is_control c = leb c 0x1f || c == 0x7f

unfoldable pub has_control : Bytes → Bool
has_control [] = false
has_control (c ∷ cs) = is_control c || has_control cs

-- The loop of `parseSFString`, on the bytes from index `i` on. The byte after a backslash is
-- matched with it, so that the recursion is on a tail.
unfoldable pub sf_rest : Bytes → Bytes → Option Bytes
sf_rest out [] = none
sf_rest out (c ∷ []) = if c == backslash then none else if c == quote then some out else none
sf_rest out (c ∷ d ∷ ds) =
    let escaped = sf_rest (out ++ d ∷ []) ds in
    let plain = sf_rest (out ++ c ∷ []) (d ∷ ds) in
    if c == backslash
    then (if d == quote || d == backslash then escaped else none)
    else if c == quote
    then none
    else if ltb c 0x20 || ltb 0x7e c
    then none
    else plain

-- `parseSFString`
unfoldable pub parse_sf_string : Bytes → Option Bytes
unfolding sf_rest
parse_sf_string [] = none
parse_sf_string (c ∷ cs) = if ltb (length cs) 1 || not (c == quote) then none else sf_rest [] cs

-- The last test of `ParseKey`.
in_range : Bytes → Parsed
in_range k = if length k == 0 || ltb 255 (length k) then rejected key_invalid else key k

parse_decoded : Option Bytes → Parsed
parse_decoded none = rejected key_invalid
parse_decoded (some k) = in_range k

parse_trimmed : Bytes → Parsed
parse_trimmed [] = rejected key_invalid
parse_trimmed (c ∷ cs) =
    if c == quote
    then parse_decoded (parse_sf_string (c ∷ cs))
    else if has_control (c ∷ cs)
    then rejected key_invalid
    else in_range (c ∷ cs)

-- `ParseKey`
unfoldable pub parse_key : Bytes → Parsed
unfolding parse_trimmed parse_decoded in_range trim parse_sf_string
parse_key value = parse_trimmed (trim value)

-- `KeyFromHeader`, on the values of the header.
unfoldable pub key_from_header : List Bytes → Parsed
unfolding parse_key
key_from_header [] = rejected key_missing
key_from_header (v ∷ []) = parse_key v
key_from_header (v ∷ w ∷ vs) = rejected key_invalid

-- The key under which the store keeps the record: `scope + "\x00" + key`, where there is a scope.
unfoldable pub store_key : Bytes → Bytes → Bytes
store_key [] k = k
store_key (c ∷ cs) k = (c ∷ cs) ++ 0 ∷ k
