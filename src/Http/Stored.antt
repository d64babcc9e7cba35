-- ===== src/Http/Stored.antt =====
-- httpidem/storedresponse.go: the replayable part of a response, and its serialization.
pub mod Sorting
pub mod Decoding
pub mod RoundTrip
pub mod Refusals
use idemlease.Base.{
  ℕ, zero, suc, ◌+◌, ◌<◌, Bytes, ltb, leb, ◌==◌, length, take, drop, Bool, true, false,
}
use idemlease.Base.{if◌then◌else◌, ◌||◌, not, Option, none, some, List, [], ◌∷◌, ◌++◌, map}
use idemlease.Base.Varint.{uvarint_bytes, read_uvarint}
use idemlease.Http.Header.{Header, values, append_value, names}
use idemlease.Http.Errors.{HttpError, corrupt_stored_response, unsupported_version}

-- A status code stands for the 64-bit pattern of Go's int, so its casts to and from uint64 are the
-- identity.
pub record StoredResponse : Type 0 where
  pub status_code : ℕ
  pub header : Header
  pub body : Bytes

abbrev pub stored_response_version : ℕ
stored_response_version = 0x01

abbrev pub max_header_names : ℕ
max_header_names = 1024

abbrev pub max_header_values : ℕ
max_header_values = 1024

-- The order of Go's strings.
unfoldable pub string_le : Bytes → Bytes → Bool
string_le [] ys = true
string_le (x ∷ xs) [] = false
string_le (x ∷ xs) (y ∷ ys) = if x == y then string_le xs ys else ltb x y

unfoldable pub insert_sorted : Bytes → List Bytes → List Bytes
insert_sorted n [] = n ∷ []
insert_sorted n (m ∷ ms) =
    let later = insert_sorted n ms in if string_le n m then n ∷ m ∷ ms else m ∷ later

-- `sort.Strings`
unfoldable pub sort_strings : List Bytes → List Bytes
sort_strings [] = []
sort_strings (n ∷ ns) = insert_sorted n (sort_strings ns)

-- `appendString`, and the framing of the body.
unfoldable pub string_bytes : Bytes → Bytes
string_bytes s = uvarint_bytes (length s) ++ s

unfoldable pub values_bytes : List Bytes → Bytes
values_bytes [] = []
values_bytes (v ∷ vs) = string_bytes v ++ values_bytes vs

unfoldable pub entry_bytes : Bytes → List Bytes → Bytes
entry_bytes name vs = string_bytes name ++ (uvarint_bytes (length vs) ++ values_bytes vs)

unfoldable pub header_bytes : List Bytes → Header → Bytes
header_bytes [] h = []
header_bytes (n ∷ ns) h = entry_bytes n (values n h) ++ header_bytes ns h

-- `StoredResponse.MarshalBinary`, which gives no error.
unfoldable pub marshal_binary : StoredResponse → Bytes
marshal_binary sr =
    let sorted = sort_strings (names sr.header) in
    stored_response_version
    ∷ (uvarint_bytes sr.status_code
        ++ (uvarint_bytes (length sorted)
            ++ (header_bytes sorted sr.header ++ string_bytes sr.body)))

-- `decoder`: what is left of the buffer, and whether an error has been latched.
pub record Decoder : Type 0 where
  pub buf : Bytes
  pub failed : Bool

read_number : Option (ℕ × Bytes) → Decoder → ℕ × Decoder
read_number none d = (0, record d { failed = true })
read_number (some (v, rest)) d = (v, record d { buf = rest })

-- `decoder.uvarint`
unfoldable pub uvarint : Decoder → ℕ × Decoder
unfolding read_number
uvarint d = if d.failed then (0, d) else read_number (read_uvarint d.buf) d

read_bytes : ℕ × Decoder → Bytes × Decoder
read_bytes (n, d) =
    if d.failed
    then ([], d)
    else if ltb (length d.buf) n
    then ([], record d { failed = true })
    else (take n d.buf, record d { buf = drop n d.buf })

-- `decoder.bytes`, and `decoder.string`
unfoldable pub bytes : Decoder → Bytes × Decoder
unfolding read_bytes
bytes d = read_bytes (uvarint d)

-- The inner loop: the values of one name.
unfoldable pub values_loop : ℕ → Bytes → Header → Decoder → Header × Decoder
values_loop zero name h d = (h, d)
values_loop (suc n) name h d =
    let (v, d') = bytes d in
    let rest = values_loop n name (append_value name v h) d' in if d.failed then (h, d) else rest

-- The outer loop; `none` is its early return.
unfoldable pub names_loop : ℕ → Header → Decoder → Option (Header × Decoder)
names_loop zero h d = some (h, d)
names_loop (suc n) h d =
    let (name, d1) = bytes d in
    let (count, d2) = uvarint d1 in
    let (h', d3) = values_loop count name h d2 in
    let rest = names_loop n h' d3 in
    if d.failed then some (h, d) else if ltb max_header_values count then none else rest

pub data Unmarshaled : Type 0 where
  decoded : StoredResponse → Unmarshaled
  refused : HttpError → Unmarshaled

unfoldable pub finish_decoding : ℕ → Header → Bytes × Decoder → Unmarshaled
finish_decoding status h (body, d) =
    if d.failed || not (length d.buf == 0)
    then refused corrupt_stored_response
    else decoded (record { status_code = status; header = h; body = body })

unfoldable pub decode_body : ℕ → Option (Header × Decoder) → Unmarshaled
decode_body status none = refused corrupt_stored_response
decode_body status (some (h, d)) = finish_decoding status h (bytes d)

-- `UnmarshalBinary`, as the response that it fills in.
unfoldable pub unmarshal_binary : Bytes → Unmarshaled
unfolding decode_body finish_decoding
unmarshal_binary [] = refused corrupt_stored_response
unmarshal_binary (version ∷ rest) =
    let (status, d1) = uvarint (record { buf = rest; failed = false }) in
    let (count, d2) = uvarint d1 in
    let looped = names_loop count [] d2 in
    if not (version == stored_response_version)
    then refused unsupported_version
    else if ltb max_header_names count
    then refused corrupt_stored_response
    else decode_body status looped
