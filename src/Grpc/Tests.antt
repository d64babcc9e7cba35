-- ===== src/Grpc/Tests.antt =====
-- Unary calls through the interceptor, over the in-memory store.
use idemlease.Base.{
  ℕ, ◌+◌, ◌≡◌, ◌≤◌, ◌↔◌, ◌∷◌, ◌++◌, refl, Bytes, bytes_eq, false, none, some, [], arith,
}
use idemlease.Base.Dict.{lookup, insert, erase}
use idemlease.Base.Text.{codes}
use idemlease.Base.Varint.{uvarint_bytes}
use idemlease.Core.Record.{completed, Record, expired}
use idemlease.Core.Store.{ok, is}
use idemlease.Core.Lease.{
  lease_ttl, record_ttl, reservation, persist, discard, begin, finish, new_token, begin_loop,
  attempt, react, examine, answer, hex_encode,
}
use idemlease.Memstore.{World, new, now, rand, reserve, complete, release, store, runtime}
use idemlease.Http.Key.{store_key}
use idemlease.Http.Key.Grammar.{IsKey}
use idemlease.Grpc.Key.{
  any_control, validate_key, key_from_context, call_key, key_from_context_iff, call_preimage,
  call_preimage_injective,
}
use idemlease.Grpc.Payload.{
  Proto, message, encode_payload, decode_payload, IsRegistered, decode_payload-encode_payload,
}
use idemlease.Grpc.Call.{
  Value, proto_message, Call, Status, handler_status, replied, panicked, UnaryHandler, CallConfig,
  default_call_config, handled, marked_replayed, Service, default_decide,
}
use idemlease.Grpc.Intercept.{begin_call, call_options, intercept}
use idemlease.Grpc.Intercept.Once.{calls, intercept-calls}
use idemlease.Grpc.Intercept.Replayed.{
  IsAccepted, intercept_replay, intercept_persist, intercept_discard,
}

-- Messages that are their own encoding, of one registered type.
abbrev raw : Proto Bytes (Unit {0})
raw = record {
  full_name = λ m. codes "t.Raw";
  marshal = λ m. some m;
  find = λ n. some tt;
  unmarshal = λ t b. some b;
}

abbrev pong : Bytes
pong = codes "pong"

abbrev pong_payload : Bytes
pong_payload = 1 ∷ 5 ∷ (codes "t.Raw" ++ pong)

abbrev first_byte : Bytes → Bytes
first_byte [] = []
first_byte (b ∷ bs) = b ∷ []

abbrev cfg : CallConfig Bytes
cfg = default_call_config

abbrev ponging : UnaryHandler World Bytes
ponging c w = (replied (proto_message pong) none, w)

abbrev failing : UnaryHandler World Bytes
failing c w = (replied (proto_message pong) (some (handler_status 14)), w)

abbrev call : Call Bytes
call = record {
  full_method = codes "/t.S/Ping";
  entries = some (codes "k1" ∷ []);
  request = proto_message (codes "ping");
}

abbrev empty : World
empty = new 1000 (1 ∷ 1 ∷ []) (ok (171 ∷ []) ∷ [])

abbrev saved : Record
saved = record (reservation (codes "k1") (b'/' ∷ []) [] 1100) {
  state = completed;
  record_expires_at = 2000;
  payload = pong_payload;
}

abbrev fresh : Service World Bytes
fresh = record { world = empty; events = [] }

abbrev retried : Service World Bytes
retried = record fresh { world = record empty { recs = (codes "k1", saved) ∷ [] } }

pong-IsRegistered : IsRegistered raw pong pong
pong-IsRegistered = record { encodes = refl; typ = tt; found = refl; decodes = refl }

call-IsAccepted :
    (h : UnaryHandler World Bytes)
    → IsAccepted store runtime raw first_byte cfg h call (codes "k1") (codes "ping")
unfolding key_from_context validate_key any_control
call-IsAccepted h = record {
  parsed = refl;
  accepted = refl;
  req = codes "ping";
  is_message = refl;
  marshaled = refl;
}

decode_payload-encode_payload_example :
    (data_bytes : Bytes) × (encode_payload raw pong ≡ some data_bytes)
    × (decode_payload raw data_bytes ≡ message pong)
decode_payload-encode_payload_example =
    decode_payload-encode_payload raw pong pong pong-IsRegistered (ground arith)

key_from_context_iff_example :
    (key_from_context (some (codes "k1" ∷ [])) ≡ call_key (codes "k1"))
    ↔ ((some (codes "k1" ∷ []) ≡ some (codes "k1" ∷ [])) × IsKey (codes "k1"))
key_from_context_iff_example = key_from_context_iff (some (codes "k1" ∷ [])) (codes "k1")

call_preimage_injective_example : (codes "/t.S/Ping" ≡ codes "/t.S/Ping") × (pong ≡ pong)
call_preimage_injective_example =
    call_preimage_injective (codes "/t.S/Ping") pong (codes "/t.S/Ping") pong (ground arith)
      (ground arith) refl

intercept-calls_example :
    calls (intercept store runtime raw first_byte cfg ponging call fresh).1.events
    ≤ calls fresh.events + 1
intercept-calls_example = intercept-calls store runtime raw first_byte cfg ponging call fresh

intercept_replay_example :
    let (res, w) =
      begin_call store runtime raw first_byte cfg ponging call
        (codes "k1")
        (codes "ping")
        retried.world in
    intercept store runtime raw first_byte cfg ponging call retried
    ≡ (replied (proto_message pong) none, record { world = w; events = marked_replayed ∷ [] })
unfolding rand now reserve lookup begin new_token begin_loop attempt react examine answer expired
    bytes_eq is lease_ttl call_preimage store_key encode_payload uvarint_bytes
intercept_replay_example =
    intercept_replay store runtime raw first_byte cfg ponging call (codes "k1") (codes "ping")
      retried pong pong pong_payload (call-IsAccepted ponging) pong-IsRegistered (ground arith) refl
      refl

intercept_persist_example :
    let (res, w) =
      begin_call store runtime raw first_byte cfg ponging call (codes "k1") (codes "ping") empty in
    let (lost, w2) =
      finish store
        (codes "k1")
        (hex_encode (171 ∷ []))
        persist
        pong_payload
        (call_options store runtime raw first_byte cfg ponging)
        w in
    intercept store runtime raw first_byte cfg ponging call fresh
    ≡ (replied (proto_message pong) none, record { world = w2; events = handled call ∷ [] })
unfolding rand now reserve complete lookup insert begin new_token begin_loop attempt react finish
    expired bytes_eq is lease_ttl record_ttl call_preimage store_key encode_payload uvarint_bytes
    default_decide hex_encode
intercept_persist_example =
    intercept_persist store runtime raw first_byte cfg ponging call (codes "k1") (codes "ping")
      (hex_encode (171 ∷ [])) pong_payload fresh pong (call-IsAccepted ponging) refl refl refl refl
      refl

intercept_discard_example :
    let (res, w) =
      begin_call store runtime raw first_byte cfg failing call (codes "k1") (codes "ping") empty in
    let (ended, w1) = failing call w in
    let (lost, w2) =
      finish store
        (codes "k1")
        (hex_encode (171 ∷ []))
        discard
        []
        (call_options store runtime raw first_byte cfg failing)
        w1 in
    ((resp : Value Bytes) (e : Status)
      → ended ≡ replied resp (some e)
      → intercept store runtime raw first_byte cfg failing call fresh
        ≡ (replied resp (some e), record { world = w2; events = handled call ∷ [] }))
    × ((v : ℕ)
        → ended ≡ panicked v
        → intercept store runtime raw first_byte cfg failing call fresh
          ≡ (panicked v, record { world = w2; events = handled call ∷ [] }))
unfolding rand now reserve release lookup insert erase begin new_token begin_loop attempt react
    finish expired bytes_eq is lease_ttl record_ttl call_preimage store_key hex_encode
intercept_discard_example =
    intercept_discard store runtime raw first_byte cfg failing call (codes "k1") (codes "ping")
      (hex_encode (171 ∷ [])) fresh false (call-IsAccepted failing) refl refl
