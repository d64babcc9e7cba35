-- ===== src/Grpc/Intercept/Replayed.antt =====
-- What the interceptor answers and how it settles the reservation, for a call that reaches `Begin`.
use idemlease.Base.{ℕ, ◌≡◌, Bytes, length, true, Bool, Option, none, some, [], ◌∷◌, false}
use idemlease.Base.Varint.{IsU64}
use idemlease.Core.Store.{ok, Store, Runtime}
use idemlease.Core.Lease.{outcome, proceed, replay, persist, discard, finish}
use idemlease.Http.Key.{store_key}
use idemlease.Grpc.Key.{call_key, key_from_context}
use idemlease.Grpc.Payload.{
  Proto, Decoded, message, encode_payload, decode_payload, IsRegistered,
  decode_payload-encode_payload,
}
use idemlease.Grpc.Call.{
  Value, proto_message, Call, Status, replied, panicked, UnaryHandler, CallConfig, handled,
  marked_replayed, Service,
}
use idemlease.Grpc.Intercept.{
  accepts, begin_call, call_scope, call_options, call_handler, intercept, on_key, on_request,
  on_marshaled, on_begun, on_outcome, replay_payload, replay_message, run_handler, conclude,
  payload_to_persist, storable_payload, encoded, finish_call, report_finish, log_failure,
}

same_payload :
    {Msg : Type 0} (f : Bytes → Decoded Msg) {a b : Bytes} {d : Decoded Msg} {o : Option Bytes}
    → o ≡ some a
    → o ≡ some b
    → f a ≡ d
    → f b ≡ d
same_payload f e1 e2 h = cc

module _ {W Msg Typ : Type 0} (s : Store W) (rt : Runtime W) (p : Proto Msg Typ)
    (sha256 : Bytes → Bytes) (cfg : CallConfig Msg) (handler : UnaryHandler W Msg) where
  -- The call has this key and these request bytes, and reaches `Begin`.
  pub record IsAccepted (c : Call Msg) (k request_bytes : Bytes) : Type 0 where
    pub parsed : key_from_context c.entries ≡ call_key k
    pub accepted : accepts s rt p sha256 cfg handler k ≡ true
    pub req : Msg
    pub is_message : c.request ≡ proto_message req
    pub marshaled : p.marshal req ≡ some request_bytes

  abbrev pub full_key : Call Msg → Bytes → Bytes
  full_key c k = store_key (call_scope s rt p sha256 cfg handler c) k

  intercept-begin_call :
      (c : Call Msg) (k b : Bytes) (x : Service W Msg)
      → IsAccepted c k b
      → let (res, w) = begin_call s rt p sha256 cfg handler c k b x.world in
        intercept s rt p sha256 cfg handler c x
        ≡ on_begun s rt p sha256 cfg handler c
            (full_key c k)
            (call_options s rt p sha256 cfg handler)
            res
            (record x { world = w })
  unfolding intercept on_key on_request on_marshaled
  intercept-begin_call c k b x a = rw (a.parsed, a.accepted, a.is_message, a.marshaled)

  -- When `Begin` answers an accepted call with the payload of a registered message, whose type name has
  -- a 64-bit length, the handler does not run: the client
  -- gets the message, marked as replayed in the response's header.
  pub intercept_replay :
      (c : Call Msg) (k b : Bytes) (x : Service W Msg) (m : Msg) (body payload : Bytes)
      → IsAccepted c k b
      → IsRegistered p m body
      → IsU64 (length (p.full_name m))
      → encode_payload p m ≡ some payload
      → let (res, w) = begin_call s rt p sha256 cfg handler c k b x.world in
        res ≡ ok (record (outcome replay) { payload = payload })
        → intercept s rt p sha256 cfg handler c x ≡ (
          replied (proto_message m) none,
          record { world = w; events = marked_replayed ∷ x.events },
        )
  unfolding on_begun on_outcome replay_payload replay_message
  intercept_replay c k b x m body payload a r h stored replays =
      let (data_bytes, written, back) = decode_payload-encode_payload p m body r h in
      let read_back : decode_payload p payload ≡ message m =
        same_payload (decode_payload p) written stored back in
      rw (intercept-begin_call c k b x a, replays, read_back)

  -- When an accepted call proceeds and the handler succeeds with a message that the policy wants kept and that
  -- can be encoded, the handler runs once and its reservation is finished with Persist and the payload;
  -- if that commits, the client gets the handler's response and nothing is logged.
  pub intercept_persist :
      (c : Call Msg) (k b token payload : Bytes) (x : Service W Msg) (m : Msg)
      → IsAccepted c k b
      → let (res, w) = begin_call s rt p sha256 cfg handler c k b x.world in
        let (ended, w1) = handler c w in
        let (lost, w2) =
          finish s
            (full_key c k)
            token
            persist
            payload
            (call_options s rt p sha256 cfg handler)
            w1 in
        res ≡ ok (record (outcome proceed) { token = token })
        → ended ≡ replied (proto_message m) none
        → cfg.policy none ≡ persist
        → encode_payload p m ≡ some payload
        → lost ≡ ok false
        → intercept s rt p sha256 cfg handler c x
          ≡ (replied (proto_message m) none, record { world = w2; events = handled c ∷ x.events })
  unfolding on_begun on_outcome run_handler call_handler conclude payload_to_persist
      storable_payload encoded finish_call report_finish
  intercept_persist c k b token payload x m a proceeds replies keeps encodes committed =
      rw (intercept-begin_call c k b x a, proceeds, replies, keeps, encodes, committed)

  -- When an accepted call proceeds and the handler answers with an error or panics, the reservation is finished
  -- with Discard, whatever the policy says; if that makes no error, the client gets the handler's
  -- response and error, or the panic goes on, and nothing is logged.
  pub intercept_discard :
      (c : Call Msg) (k b token : Bytes) (x : Service W Msg) (freed : Bool)
      → IsAccepted c k b
      → let (res, w) = begin_call s rt p sha256 cfg handler c k b x.world in
        let (ended, w1) = handler c w in
        let (lost, w2) =
          finish s (full_key c k) token discard [] (call_options s rt p sha256 cfg handler) w1 in
        res ≡ ok (record (outcome proceed) { token = token })
        → lost ≡ ok freed
        → ((resp : Value Msg) (e : Status)
            → ended ≡ replied resp (some e)
            → intercept s rt p sha256 cfg handler c x
              ≡ (replied resp (some e), record { world = w2; events = handled c ∷ x.events }))
          × ((v : ℕ)
              → ended ≡ panicked v
              → intercept s rt p sha256 cfg handler c x
                ≡ (panicked v, record { world = w2; events = handled c ∷ x.events }))
  unfolding on_begun on_outcome run_handler call_handler conclude payload_to_persist finish_call
      log_failure
  intercept_discard c k b token x freed a proceeds done = (
    (λ resp e replies. rw (intercept-begin_call c k b x a, proceeds, replies, done)),
    (λ v panics. rw (intercept-begin_call c k b x a, proceeds, panics, done)),
  )
