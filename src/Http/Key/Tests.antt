-- ===== src/Http/Key/Tests.antt =====
-- Idempotency-Key headers, parsed.
use idemlease.Base.{◌≡◌, refl, Bytes, [], ◌∷◌, ◌++◌, arith}
use idemlease.Base.Text.{codes}
use idemlease.Http.Key.{key, parse_key, key_from_header}
use idemlease.Http.Key.Grammar.{IsKey, key_from_header-IsKey}
use idemlease.Http.Key.Forms.{quoted, parse_key-quoted}
use idemlease.Http.Key.Scope.{store_key_injective}

-- The key `a"b`, as it is and between quotes.
abbrev mixed : Bytes
mixed = codes "a\"b"

mixed-IsKey : IsKey mixed
mixed-IsKey = ground arith

key_from_header-IsKey_example : IsKey mixed
unfolding key_from_header parse_key
key_from_header-IsKey_example = key_from_header-IsKey (codes "  \"a\\\"b\" " ∷ []) mixed refl

store_key_injective_example : (codes "tenant" ≡ codes "tenant") × (mixed ≡ mixed)
store_key_injective_example =
    store_key_injective (codes "tenant") (codes "tenant") mixed mixed mixed-IsKey mixed-IsKey refl

parse_key-quoted_example : parse_key (codes " " ++ (quoted mixed ++ codes "")) ≡ key mixed
parse_key-quoted_example =
    parse_key-quoted (codes " ") [] mixed (ground arith) tt mixed-IsKey (ground arith)
