-- ===== src/Base/Text.antt =====
-- Go's string constants as bytes, and the stdlib's changes of case on ASCII.
use Prim.Native.Char.{code}
use Prim.Native.String.{String}
use idemlease.Base.{ℕ, ◌+◌, ◌-◌, Bytes, leb, ◌==◌, Bool, true, ◌&&◌, ◌||◌, if◌then◌else◌}
use idemlease.Base.{[], ◌∷◌}

-- The bytes of an ASCII text.
abbrev pub codes : String → Bytes
codes String.[] = []
codes (String.◌∷◌ c s) = code c ∷ codes s

abbrev pub is_lower : ℕ → Bool
is_lower c = leb b'a' c && leb c b'z'

abbrev pub is_upper : ℕ → Bool
is_upper c = leb b'A' c && leb c b'Z'

abbrev pub upper : ℕ → ℕ
upper c = if is_lower c then c - 32 else c

abbrev pub lower : ℕ → ℕ
lower c = if is_upper c then c + 32 else c

-- `strings.ToUpper` of an ASCII string.
unfoldable pub to_upper : Bytes → Bytes
to_upper [] = []
to_upper (c ∷ cs) = upper c ∷ to_upper cs

-- A byte that a header name may hold (a token byte of RFC 7230).
abbrev pub is_token : ℕ → Bool
is_token c =
    is_lower c
    || is_upper c
    || (leb b'0' c && leb c b'9')
    || c == b'!'
    || c == b'#'
    || c == b'$'
    || c == b'%'
    || c == b'&'
    || c == 0x27
    || c == b'*'
    || c == b'+'
    || c == b'-'
    || c == b'.'
    || c == b'^'
    || c == b'_'
    || c == b'`'
    || c == b'|'
    || c == b'~'

unfoldable pub all_token : Bytes → Bool
all_token [] = true
all_token (c ∷ cs) = is_token c && all_token cs

-- Upper case at the start and behind a dash, lower case elsewhere.
unfoldable pub recase : Bool → Bytes → Bytes
recase start [] = []
recase start (c ∷ cs) = (if start then upper c else lower c) ∷ recase (c == b'-') cs

-- `textproto.CanonicalMIMEHeaderKey`: a name that is no token stays as it is.
unfoldable pub canonical : Bytes → Bytes
canonical s = if all_token s then recase true s else s
