-- ===== src/Http/Stored/Refusals.antt =====
-- A payload that is no stored response is refused as corrupted, or for its version.
use idemlease.Base.{
  ℕ, false, if◌then◌else◌, ltb, ◌==◌, ◌||◌, not, length, Bool-cases, inl, inr, Bytes, Option, none,
  some, [], ◌∷◌,
}
use idemlease.Http.Header.{Header}
use idemlease.Http.Errors.{corrupt_stored_response}
use idemlease.Http.Errors.Rejection.{IsRejection, corrupt, too_new}
use idemlease.Http.Stored.{
  Decoder, uvarint, Unmarshaled, refused, decoded, unmarshal_binary, decode_body, finish_decoding,
  max_header_names, stored_response_version,
}

-- The error, if there is one, is one that the middleware answers with 500.
abbrev pub IsAnswered : Unmarshaled → Type 0
IsAnswered (refused e) = IsRejection 500 e
IsAnswered (decoded sr) = Unit

finish_decoding-IsAnswered :
    (status : ℕ) (h : Header) (rest : Bytes × Decoder) → IsAnswered (finish_decoding status h rest)
unfolding finish_decoding
finish_decoding-IsAnswered status h (body, d) =
    elim (Bool-cases (d.failed || not (length d.buf == 0))) [
      | inl bad ↦ rw bad corrupt
      | inr good ↦ rw good tt
    ]

decode_body-IsAnswered :
    (status : ℕ) (o : Option (Header × Decoder)) → IsAnswered (decode_body status o)
unfolding decode_body
decode_body-IsAnswered status none = corrupt
decode_body-IsAnswered status (some (h, d)) = finish_decoding-IsAnswered status h _

count_checked :
    (count : ℕ) (u : Unmarshaled)
    → IsAnswered u
    → IsAnswered (if ltb max_header_names count then refused corrupt_stored_response else u)
count_checked count u answered = elim (Bool-cases (ltb max_header_names count)) [
  | inl many ↦ rw many corrupt
  | inr few ↦ rw few answered
]

pub unmarshal_binary-IsAnswered : (payload : Bytes) → IsAnswered (unmarshal_binary payload)
unfolding unmarshal_binary
unmarshal_binary-IsAnswered [] = corrupt
unmarshal_binary-IsAnswered (version ∷ rest) =
    elim (Bool-cases (not (version == stored_response_version))) [
      | inl other ↦ rw other too_new
      | inr same ↦ rw same (
          count_checked (uvarint (uvarint (record { buf = rest; failed = false })).1).0 _
            (decode_body-IsAnswered _ _))
    ]
