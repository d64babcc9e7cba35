-- ===== src/Http/Stored/Decoding.antt =====
-- The decoder reads back what the encoder wrote, and leaves what follows.
use mathlib.Core.List.{append_assoc}
use idemlease.Base.{ℕ, ◌≤◌, ◌≡◌, ◌∙◌, refl, Bytes, ltb, length, length-append}
use idemlease.Base.{take-append_length, drop-append_length, All, List, [], ◌∷◌, ◌++◌, false, arith}
use idemlease.Base.{some}
use idemlease.Base.Varint.{IsU64, uvarint_bytes, read_uvarint-bytes}
use idemlease.Http.Header.{Header, values, append_value}
use idemlease.Http.Stored.{
  Decoder, uvarint, bytes, string_bytes, values_bytes, entry_bytes, header_bytes, values_loop,
  names_loop, max_header_values,
}

-- A decoder with no error over the bytes.
abbrev pub over : Bytes → Decoder
over b = record { buf = b; failed = false }

pub uvarint_lem :
    (v : ℕ) (rest : Bytes) → IsU64 v → uvarint (over (uvarint_bytes v ++ rest)) ≡ (v, over rest)
unfolding uvarint
uvarint_lem v rest h = rw (read_uvarint-bytes v rest h)

pub bytes_lem :
    (s rest : Bytes) → IsU64 (length s) → bytes (over (string_bytes s ++ rest)) ≡ (s, over rest)
unfolding bytes string_bytes
bytes_lem s rest h =
    let fits : ltb (length (s ++ rest)) (length s) ≡ false = ground (arith, length-append s rest) in
    rw (
      append_assoc,
      uvarint_lem (length s) (s ++ rest) h,
      fits,
      take-append_length,
      drop-append_length,
    )

abbrev pub AreStrings : List Bytes → Type 0
AreStrings = All (λ s. IsU64 (length s))

-- The values in turn, appended under the name.
unfoldable pub add_values : Bytes → List Bytes → Header → Header
add_values name [] h = h
add_values name (v ∷ vs) h = add_values name vs (append_value name v h)

pub values_loop_lem :
    (name : Bytes) (vs : List Bytes) (h : Header) (rest : Bytes)
    → AreStrings vs
    → values_loop (length vs) name h (over (values_bytes vs ++ rest))
      ≡ (add_values name vs h, over rest)
unfolding values_loop values_bytes add_values
values_loop_lem name [] h rest a = refl
values_loop_lem name (v ∷ vs) h rest a =
    rw (append_assoc, bytes_lem v (values_bytes vs ++ rest) a.0)
      (values_loop_lem name vs (append_value name v h) rest a.1)

-- The values of the names in turn, as the header lists them.
unfoldable pub add_entries : List Bytes → Header → Header → Header
add_entries [] source h = h
add_entries (n ∷ ns) source h = add_entries ns source (add_values n (values n source) h)

-- What the decoder's limits ask of an entry.
abbrev pub IsFit : Header → Bytes → Type 0
IsFit source n =
    IsU64 (length n) × AreStrings (values n source) × (length (values n source) ≤ max_header_values)

entry_read :
    (n : Bytes) (ns : List Bytes) (source h : Header) (rest : Bytes)
    → IsFit source n
    → names_loop (length (n ∷ ns)) h (over (header_bytes (n ∷ ns) source ++ rest))
      ≡ names_loop
          (length ns)
          (add_values n (values n source) h)
          (over (header_bytes ns source ++ rest))
unfolding names_loop header_bytes entry_bytes
entry_read n ns source h rest (name_fits, values_fit, few) =
    let vs = values n source in
    let tail = header_bytes ns source ++ rest in
    let count_fits : IsU64 (length vs) = omega (arith, few) in
    let ok_count : ltb max_header_values (length vs) ≡ false = ground (arith, few) in
    rw (
      append_assoc,
      append_assoc,
      append_assoc,
      bytes_lem n (uvarint_bytes (length vs) ++ (values_bytes vs ++ tail)) name_fits,
      uvarint_lem (length vs) (values_bytes vs ++ tail) count_fits,
      values_loop_lem n vs h tail values_fit,
      ok_count,
    )

pub names_loop_lem :
    (ns : List Bytes) (source h : Header) (rest : Bytes)
    → All (IsFit source) ns
    → names_loop (length ns) h (over (header_bytes ns source ++ rest))
      ≡ some (add_entries ns source h, over rest)
unfolding add_entries
names_loop_lem [] source h rest fit = unfold names_loop header_bytes in refl
names_loop_lem (n ∷ ns) source h rest (f, fit) =
    entry_read n ns source h rest f
    ∙ names_loop_lem ns source (add_values n (values n source) h) rest fit
