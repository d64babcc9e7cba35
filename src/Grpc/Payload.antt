-- ===== src/Grpc/Payload.antt =====
-- grpcidem/grpcidem.go: `encodePayload` and `decodePayload`. Protocol buffers are a parameter.
use idemlease.Base.{
  ◌≡◌, Bytes, length, take, drop, take-append_length, drop-append_length, length-append, ltb, ◌==◌,
  not, if◌then◌else◌, false, Option, none, some, [], ◌∷◌, ◌++◌, arith, ℕ,
}
use idemlease.Base.Varint.{IsU64, uvarint_bytes, read_uvarint, read_uvarint-bytes}

abbrev pub payload_version : ℕ
payload_version = 0x01

-- Protocol buffers as the code uses them: a message's full name and its deterministic encoding, which
-- may fail; the types of the global registry by name; and the decoding into a fresh instance.
pub record Proto (Msg Typ : Type 0) : Type 0 where
  pub full_name : Msg → Bytes
  pub marshal : Msg → Option Bytes
  pub find : Bytes → Option Typ
  pub unmarshal : Typ → Bytes → Option Msg

pub data Decoded (Msg : Type 0) : Type 0 where
  message : Msg → Decoded Msg
  unsupported_version corrupted not_registered undecodable : Decoded Msg

module _ {Msg Typ : Type 0} (p : Proto Msg Typ) where
  frame : Bytes → Option Bytes → Option Bytes
  frame name none = none
  frame name (some body) = some (payload_version ∷ (uvarint_bytes (length name) ++ (name ++ body)))

  -- `encodePayload`; `none` where the encoding fails.
  unfoldable pub encode_payload : Msg → Option Bytes
  unfolding frame
  encode_payload m = frame (p.full_name m) (p.marshal m)

  decode_fresh : Option Msg → Decoded Msg
  decode_fresh none = undecodable
  decode_fresh (some m) = message m

  decode_body : Bytes → Option Typ → Decoded Msg
  unfolding decode_fresh
  decode_body body none = not_registered
  decode_body body (some t) = decode_fresh (p.unmarshal t body)

  decode_name : Option (ℕ × Bytes) → Decoded Msg
  unfolding decode_body
  decode_name none = corrupted
  decode_name (some (n, tail)) =
      if ltb (length tail) n then corrupted else decode_body (drop n tail) (p.find (take n tail))

  -- `decodePayload`
  unfoldable pub decode_payload : Bytes → Decoded Msg
  unfolding decode_name
  decode_payload [] = unsupported_version
  decode_payload (v ∷ rest) =
      if not (v == payload_version) then unsupported_version else decode_name (read_uvarint rest)

  -- What protocol buffers document for a message: its type is registered under its name, and its
  -- encoding is read back into it.
  pub record IsRegistered (m : Msg) (body : Bytes) : Type 0 where
    pub encodes : p.marshal m ≡ some body
    pub typ : Typ
    pub found : p.find (p.full_name m) ≡ some typ
    pub decodes : p.unmarshal typ body ≡ some m

  -- A message that the encoder accepts and whose type is registered, under a name of a 64-bit length,
  -- comes back from its payload.
  pub decode_payload-encode_payload :
      (m : Msg) (body : Bytes)
      → IsRegistered m body
      → IsU64 (length (p.full_name m))
      → (data_bytes : Bytes) × (encode_payload m ≡ some data_bytes)
        × (decode_payload data_bytes ≡ message m)
  unfolding encode_payload decode_payload
  decode_payload-encode_payload m body r h =
      let name = p.full_name m in
      let fits : ltb (length (name ++ body)) (length name) ≡ false =
        ground (arith, length-append name body) in
      (
        payload_version ∷ (uvarint_bytes (length name) ++ (name ++ body)),
        rw r.encodes,
        rw (
          read_uvarint-bytes (length name) (name ++ body) h,
          fits,
          take-append_length,
          drop-append_length,
          r.found,
          r.decodes,
        ),
      )
