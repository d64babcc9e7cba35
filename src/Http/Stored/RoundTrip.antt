-- ===== src/Http/Stored/RoundTrip.antt =====
-- What `MarshalBinary` writes, `UnmarshalBinary` reads back.
use mathlib.Core.List.{append_assoc, append-nil}
use idemlease.Base.{
  ℕ, ◌≤◌, ◌≡◌, ◌∙◌, refl, sym, ap, Bytes, bytes_eq, bytes_eq_iff, ltb, length, All, Bool-cases,
}
use idemlease.Base.{List, [], ◌∷◌, ◌++◌, false, if◌then◌else◌, inl, inr, arith}
use idemlease.Base.Varint.{IsU64, uvarint_bytes}
use idemlease.Http.Header.{
  Header, values, append_value, names, elem, Distinct, values-append_value, values_of_missing,
  values_of_nil,
}
use idemlease.Http.Errors.{corrupt_stored_response}
use idemlease.Http.Stored.{
  StoredResponse, decoded, refused, marshal_binary, unmarshal_binary, sort_strings, header_bytes,
  string_bytes, max_header_names, finish_decoding,
}
use idemlease.Http.Stored.Sorting.{
  elem-sort_strings, sort_strings-Distinct, length-sort_strings, sort_strings-All,
}
use idemlease.Http.Stored.Decoding.{
  over, uvarint_lem, bytes_lem, add_values, add_entries, IsFit, names_loop_lem,
}

values-add_values :
    (n : Bytes) (vs : List Bytes) (k : Bytes) (h : Header)
    → values k (add_values n vs h) ≡ (if bytes_eq n k then values n h ++ vs else values k h)
unfolding add_values
values-add_values n [] k h = ground (arith, append-nil (values n h), bytes_eq_iff n k)
values-add_values n (v ∷ vs) k h = ground (
  arith,
  values-add_values n vs k (append_value n v h),
  values-append_value n v k h,
  values-append_value n v n h,
  append_assoc (values n h) (v ∷ []) vs,
  bytes_eq_iff n n,
)

values-add_entries :
    (ns : List Bytes) (k : Bytes) (source h : Header)
    → Distinct ns
    → values k (add_entries ns source h)
      ≡ (if elem k ns then values k h ++ values k source else values k h)
unfolding add_entries elem
values-add_entries [] k source h d = refl
values-add_entries (n ∷ ns) k source h (fresh, d) = ground (
  arith,
  values-add_entries ns k source (add_values n (values n source) h) d,
  values-add_values n (values n source) k h,
  bytes_eq_iff n k,
)

-- A response within the decoder's limits: each name stands once (the header is a map), there are at
-- most 1024 names with at most 1024 values each, and the lengths and the status are 64-bit numbers.
pub record IsStorable (sr : StoredResponse) : Type 0 where
  pub status_fits : IsU64 sr.status_code
  pub body_fits : IsU64 (length sr.body)
  pub distinct : Distinct (names sr.header)
  pub few_names : length (names sr.header) ≤ max_header_names
  pub entries_fit : All (IsFit sr.header) (names sr.header)

abbrev read_header : StoredResponse → Header
read_header sr = add_entries (sort_strings (names sr.header)) sr.header []

unmarshal-marshal_rest :
    (sr : StoredResponse) (rest : Bytes)
    → IsStorable sr
    → unmarshal_binary (marshal_binary sr ++ rest)
      ≡ finish_decoding sr.status_code (read_header sr) (sr.body, over rest)
unfolding unmarshal_binary marshal_binary
unmarshal-marshal_rest sr rest ok_sr =
    let sorted = sort_strings (names sr.header) in
    let tail = string_bytes sr.body ++ rest in
    let fit = sort_strings-All (IsFit sr.header) (names sr.header) ok_sr.entries_fit in
    let few : length sorted ≤ max_header_names =
      omega (arith, length-sort_strings (names sr.header), ok_sr.few_names) in
    let count_ok : ltb max_header_names (length sorted) ≡ false = ground (arith, few) in
    rw (
      append_assoc,
      append_assoc,
      append_assoc,
      uvarint_lem sr.status_code
          (uvarint_bytes (length sorted) ++ (header_bytes sorted sr.header ++ tail))
          ok_sr.status_fits,
      uvarint_lem (length sorted) (header_bytes sorted sr.header ++ tail) (omega (arith, few)),
      names_loop_lem sorted sr.header [] tail fit,
      count_ok,
      bytes_lem sr.body rest ok_sr.body_fits,
    )

values-read_header :
    (sr : StoredResponse) (k : Bytes)
    → Distinct (names sr.header)
    → values k (read_header sr) ≡ values k sr.header
values-read_header sr k d =
    let ns = names sr.header in
    let added = values-add_entries (sort_strings ns) k sr.header [] (sort_strings-Distinct ns d) in
    let nothing = values_of_nil k in
    elim (Bool-cases (elem k ns)) [
      | inl known ↦ added ∙ rw (elem-sort_strings k ns, known, nothing)
      | inr missing ↦
          added
          ∙ rw (elem-sort_strings k ns, missing, nothing, values_of_missing k sr.header missing)
    ]

-- A storable response comes back from its serialization with the same status and body, and with the
-- same values under every header name.
pub unmarshal-marshal :
    (sr : StoredResponse)
    → IsStorable sr
    → (h : Header) × (unmarshal_binary (marshal_binary sr)
        ≡ decoded (record { status_code = sr.status_code; header = h; body = sr.body }))
      × ((k : Bytes) → values k h ≡ values k sr.header)
unfolding finish_decoding
unmarshal-marshal sr ok_sr = (
  read_header sr,
  ap unmarshal_binary (sym (append-nil (marshal_binary sr))) ∙ unmarshal-marshal_rest sr [] ok_sr,
  (λ k. values-read_header sr k ok_sr.distinct),
)

-- The serialization with anything behind it is refused as corrupted.
pub unmarshal_trailing :
    (sr : StoredResponse) (b : ℕ) (bs : Bytes)
    → IsStorable sr
    → unmarshal_binary (marshal_binary sr ++ b ∷ bs) ≡ refused corrupt_stored_response
unfolding finish_decoding
unmarshal_trailing sr b bs ok_sr = unmarshal-marshal_rest sr (b ∷ bs) ok_sr ∙ ground arith
