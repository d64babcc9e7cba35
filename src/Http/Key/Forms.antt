-- ===== src/Http/Key/Forms.antt =====
-- The two ways to write a key, raw and as an RFC 8941 string, name the same key.
use mathlib.Core.List.{append_assoc, append-nil}
use idemlease.Base.{ℕ, ◌≤◌, ◌≡◌, ◌≢◌, ◌∙◌, refl, ap, Bytes, length, length-append, All, Bool-cases}
use idemlease.Base.{
  ltb, ◌==◌, true, false, some, [], ◌∷◌, ◌++◌, inl, inr, arith, if◌then◌else◌, ◌||◌,
}
use idemlease.Http.Key.{
  key, quote, backslash, is_ows, has_control, sf_rest, parse_sf_string, in_range, parse_trimmed,
  parse_key, trim, trim_left, trim_right,
}
use idemlease.Http.Key.Grammar.{IsPlain, IsKey}

abbrev pub AreOws : Bytes → Type 0
AreOws = All (λ c. is_ows c ≡ true)

-- The text neither starts nor ends with white space.
abbrev pub StartsTight : Bytes → Type 0
StartsTight [] = ⊥
StartsTight (c ∷ cs) = is_ows c ≡ false

abbrev pub EndsTight : Bytes → Type 0
EndsTight [] = ⊥
EndsTight (c ∷ []) = is_ows c ≡ false
EndsTight (c ∷ d ∷ ds) = EndsTight (d ∷ ds)

trim_left_ows : (pre v : Bytes) → AreOws pre → StartsTight v → trim_left (pre ++ v) ≡ v
unfolding trim_left
trim_left_ows [] [] h t = absurd t
trim_left_ows [] (c ∷ cs) h t = rw t
trim_left_ows (c ∷ pre) v h t = rw h.0 (trim_left_ows pre v h.1 t)

trim_right_ows : (post : Bytes) → AreOws post → trim_right post ≡ []
unfolding trim_right
trim_right_ows [] h = refl
trim_right_ows (c ∷ post) h = rw (trim_right_ows post h.1, h.0)

trim_right_tight : (v post : Bytes) → EndsTight v → AreOws post → trim_right (v ++ post) ≡ v
unfolding trim_right
trim_right_tight [] post t h = absurd t
trim_right_tight (c ∷ []) post t h = rw (trim_right_ows post h, t)
trim_right_tight (c ∷ d ∷ ds) post t h = rw (trim_right_tight (d ∷ ds) post t h)

StartsTight-append : (v post : Bytes) → StartsTight v → StartsTight (v ++ post)
StartsTight-append [] post t = absurd t
StartsTight-append (c ∷ cs) post t = t

trim_tight :
    (pre v post : Bytes)
    → AreOws pre
    → AreOws post
    → StartsTight v
    → EndsTight v
    → trim (pre ++ (v ++ post)) ≡ v
unfolding trim
trim_tight pre v post hp hq s e =
    ap trim_right (trim_left_ows pre (v ++ post) hp (StartsTight-append v post s))
    ∙ trim_right_tight v post e hq

has_control_of_plain : (v : Bytes) → All IsPlain v → has_control v ≡ false
unfolding has_control
has_control_of_plain [] h = refl
has_control_of_plain (c ∷ cs) h = ground (arith, has_control_of_plain cs h.1)

in_range_key : (k : Bytes) → IsKey k → in_range k ≡ key k
unfolding in_range
in_range_key k h = ground arith

-- A key that does not start with a double quote, written raw between any white space, is itself.
pub parse_key-raw :
    (pre post : Bytes) (c : ℕ) (cs : Bytes)
    → AreOws pre
    → AreOws post
    → IsKey (c ∷ cs)
    → StartsTight (c ∷ cs)
    → EndsTight (c ∷ cs)
    → c ≢ quote
    → parse_key (pre ++ ((c ∷ cs) ++ post)) ≡ key (c ∷ cs)
unfolding parse_key
parse_key-raw pre post c cs hp hq k s e nq =
    rw (trim_tight pre (c ∷ cs) post hp hq s e) (raw (ground arith))
  where
    raw : (c == quote) ≡ false → parse_trimmed (c ∷ cs) ≡ key (c ∷ cs)
    raw n = rw (n, has_control_of_plain (c ∷ cs) k.2) (in_range_key (c ∷ cs) k)

-- The quoted form: a backslash before each double quote and backslash.
escape : Bytes → Bytes
escape [] = []
escape (c ∷ cs) = if c == quote || c == backslash then backslash ∷ c ∷ escape cs else c ∷ escape cs

pub quoted : Bytes → Bytes
unfolding escape
quoted k = quote ∷ (escape k ++ quote ∷ [])

sf_step :
    (out : Bytes) (c : ℕ) (rest : Bytes)
    → 1 ≤ length rest
    → c ≢ quote
    → c ≢ backslash
    → 0x20 ≤ c
    → c ≤ 0x7e
    → sf_rest out (c ∷ rest) ≡ sf_rest (out ++ c ∷ []) rest
unfolding sf_rest
sf_step out c [] l nq nb lo hi = absurd (omega arith)
sf_step out c (d ∷ ds) l nq nb lo hi = ground arith

sf_escaped :
    (out : Bytes) (c : ℕ) (ds : Bytes)
    → (c == quote || c == backslash) ≡ true
    → sf_rest out (backslash ∷ c ∷ ds) ≡ sf_rest (out ++ c ∷ []) ds
unfolding sf_rest
sf_escaped out c ds esc = rw esc

some_append :
    (out : Bytes) (c : ℕ) (cs : Bytes) → some ((out ++ c ∷ []) ++ cs) ≡ some (out ++ c ∷ cs)
some_append out c cs = ap some (append_assoc out (c ∷ []) cs)

sf_rest-escape :
    (out k : Bytes)
    → All IsPlain k
    → All (λ c. c ≤ 0x7e) k
    → sf_rest out (escape k ++ quote ∷ []) ≡ some (out ++ k)
unfolding escape
sf_rest-escape out [] p a = unfold sf_rest in rw append-nil
sf_rest-escape out (c ∷ cs) p a =
    let next = sf_rest-escape (out ++ c ∷ []) cs p.1 a.1 ∙ some_append out c cs in
    elim (Bool-cases (c == quote || c == backslash)) [
      | inl esc ↦ rw esc (sf_escaped out c (escape cs ++ quote ∷ []) esc ∙ next)
      | inr plain ↦
          let long : 1 ≤ length (escape cs ++ quote ∷ []) =
            omega (arith, length-append (escape cs) (quote ∷ [])) in
          rw plain (
            sf_step out c (escape cs ++ quote ∷ []) long (ground arith) (ground arith) p.0.0 a.0
            ∙ next)
    ]

EndsTight-quoted : (d : ℕ) (v : Bytes) → EndsTight (d ∷ (v ++ quote ∷ []))
EndsTight-quoted d [] = refl
EndsTight-quoted d (c ∷ cs) = EndsTight-quoted c cs

-- Any key of printable ASCII, written as an RFC 8941 string with any white space before and after it,
-- is read as that key.
pub parse_key-quoted :
    (pre post k : Bytes)
    → AreOws pre
    → AreOws post
    → IsKey k
    → All (λ c. c ≤ 0x7e) k
    → parse_key (pre ++ (quoted k ++ post)) ≡ key k
unfolding parse_key parse_sf_string quoted
parse_key-quoted pre post k hp hq h a =
    let inner = escape k ++ quote ∷ [] in
    let tight =
      trim_tight pre (quote ∷ inner) post hp hq refl (EndsTight-quoted quote (escape k)) in
    let long : ltb (length inner) 1 ≡ false =
      ground (arith, length-append (escape k) (quote ∷ [])) in
    rw (tight, long, sf_rest-escape [] k h.2 a) (in_range_key k h)
