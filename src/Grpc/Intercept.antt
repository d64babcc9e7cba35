-- ===== src/Grpc/Intercept.antt =====
-- grpcidem/grpcidem.go: `interceptor.intercept`, over any store, runtime, protocol buffers, handler and
-- configuration. SHA-256 is a parameter.
use idemlease.Base.{Bytes, Bool, true, false, ◌&&◌, not, if◌then◌else◌, Option, none, some, [], ◌∷◌}
use idemlease.Base.Monad.{M, pure, ◌>>=◌, ◌>>◌}
use idemlease.Core.Store.{Error, Result, ok, err, Store, Runtime}
use idemlease.Core.Lease.{
  Options, Action, proceed, replay, reject_in_flight, reject_fingerprint_mismatch, Outcome,
  Decision, persist, discard, begin, finish,
}
use idemlease.Http.Key.{store_key}
use idemlease.Grpc.Key.{
  CallKey, call_key, key_missing, key_invalid, key_from_context, call_preimage,
}
use idemlease.Grpc.Payload.{Proto, Decoded, message, encode_payload, decode_payload}
use idemlease.Grpc.Call.{
  Value, proto_message, typed_nil, no_message, Call, Status, invalid_argument, internal,
  unavailable, failed_precondition, aborted, Ended, replied, panicked, UnaryHandler, CallConfig,
  CallEvent, handled, marked_replayed, proceeding_without_idempotency, release_after_panic_failed,
  persist_failed, best_effort_release_failed, release_failed, encoding_failed, lease_lost,
  corrupted_payload, Service, retry_after,
}
pub mod Once
pub mod Replayed

abbrev is_persist : Decision → Bool
is_persist persist = true
is_persist _ = false

abbrev pub is_missing : CallKey → Bool
is_missing key_missing = true
is_missing _ = false

module _ {W Msg Typ : Type 0} (s : Store W) (rt : Runtime W) (p : Proto Msg Typ)
    (sha256 : Bytes → Bytes) (cfg : CallConfig Msg) (handler : UnaryHandler W Msg) where
  abbrev Act : Type 0
  Act = M (Service W Msg) (Ended Msg)

  abbrev log : CallEvent Msg → M (Service W Msg) (Unit {0})
  log e x = (tt, record x { events = e ∷ x.events })

  -- `if _, ferr := Finish(...); ferr != nil { log }`
  log_failure : (Error → CallEvent Msg) → Result Bool → M (Service W Msg) (Unit {0})
  log_failure event (ok lost) = pure tt
  log_failure event (err e) = log (event e)

  abbrev on_service : {A : Type 0} → M W A → M (Service W Msg) A
  on_service m x = let (a, w) = m x.world in (a, record x { world = w })

  -- `return nil, status.Error(code, ...)`
  abbrev pub fail : Status → Act
  fail e x = (replied no_message (some e), x)

  -- `handler(ctx, req)`
  unfoldable pub call_handler : Call Msg → Act
  call_handler c x =
      let (ended, w) = handler c x.world in
      (ended, record { world = w; events = handled c ∷ x.events })

  replay_message : Decoded Msg → Act
  replay_message (message m) = do log marked_replayed; pure (replied (proto_message m) none)
  replay_message _ = do log corrupted_payload; fail internal

  -- `interceptor.replay`
  replay_payload : Bytes → Act
  unfolding replay_message
  replay_payload payload = replay_message (decode_payload p payload)

  encoded : Option Bytes → M (Service W Msg) (Option Bytes)
  encoded none = do log encoding_failed; pure none
  encoded (some payload) = pure (some payload)

  storable_payload : Value Msg → M (Service W Msg) (Option Bytes)
  unfolding encoded
  storable_payload no_message = pure none
  storable_payload typed_nil = pure none
  storable_payload (proto_message m) = encoded (encode_payload p m)

  -- `payloadToPersist`
  payload_to_persist : Value Msg → Option Status → M (Service W Msg) (Option Bytes)
  unfolding storable_payload
  payload_to_persist resp (some e) = pure none
  payload_to_persist resp none =
      if is_persist (cfg.policy none) then storable_payload resp else pure none

  -- `reportFinish`
  report_finish : Bytes → Bytes → Options → Result Bool → M (Service W Msg) (Unit {0})
  report_finish k token o (err e) = do
    log (persist_failed e)
    released ← on_service (finish s k token discard [] o)
    log_failure best_effort_release_failed released
  report_finish k token o (ok true) = log lease_lost
  report_finish k token o (ok false) = pure tt

  -- What follows the handler: Persist, or Discard where there is nothing to persist.
  finish_call : Bytes → Bytes → Options → Option Bytes → M (Service W Msg) (Unit {0})
  finish_call k token o (some payload) = do
    result ← on_service (finish s k token persist payload o)
    report_finish k token o result
  finish_call k token o none = do
    result ← on_service (finish s k token discard [] o)
    log_failure release_failed result

  conclude : Bytes → Bytes → Options → Ended Msg → Act
  conclude k token o (panicked v) = do
    result ← on_service (finish s k token discard [] o)
    log_failure release_after_panic_failed result
    pure (panicked v)
  conclude k token o (replied resp e) = do
    payload ← payload_to_persist resp e
    finish_call k token o payload
    pure (replied resp e)

  -- `interceptor.runHandler`
  run_handler : Call Msg → Bytes → Bytes → Options → Act
  run_handler c k token o = do ended ← call_handler c; conclude k token o ended

  on_outcome : Call Msg → Bytes → Options → Action → Outcome → Act
  on_outcome c k o replay out = replay_payload out.payload
  on_outcome c k o reject_in_flight out = fail (aborted (retry_after out.retry_after))
  on_outcome c k o reject_fingerprint_mismatch out = fail failed_precondition
  on_outcome c k o proceed out = run_handler c k out.token o

  on_begun : Call Msg → Bytes → Options → Result Outcome → Act
  on_begun c k o (ok out) = on_outcome c k o out.action out
  on_begun c k o (err e) =
      if cfg.fail_open
      then (do log (proceeding_without_idempotency e); call_handler c)
      else fail unavailable

  abbrev pub call_scope : Call Msg → Bytes
  call_scope c = elim (cfg.key_scope) [ none ↦ [] | some f ↦ f c ]

  abbrev pub call_options : Options
  call_options = record { lease_ttl = cfg.lease_ttl; record_ttl = cfg.record_ttl }

  abbrev pub begin_call : Call Msg → Bytes → Bytes → W → Result Outcome × W
  begin_call c k request_bytes =
      begin s rt (store_key (call_scope c) k) (sha256 (call_preimage c.full_method request_bytes))
        call_options

  -- With the request's bytes, if it could be marshaled.
  on_marshaled : Call Msg → Bytes → Option Bytes → Act
  on_marshaled c k none = fail internal
  on_marshaled c k (some request_bytes) = do
    begun ← on_service (begin_call c k request_bytes)
    on_begun c (store_key (call_scope c) k) call_options begun

  -- A typed nil is marshaled to no bytes.
  on_request : Call Msg → Bytes → Value Msg → Act
  on_request c k no_message = fail internal
  on_request c k typed_nil = on_marshaled c k (some [])
  on_request c k (proto_message m) = on_marshaled c k (p.marshal m)

  abbrev pub accepts : Bytes → Bool
  accepts k = elim (cfg.key_valid) [ none ↦ true | some f ↦ f k ]

  on_key : Call Msg → CallKey → Act
  on_key c (call_key k) = if accepts k then on_request c k c.request else fail invalid_argument
  on_key c key_missing = if cfg.require then fail invalid_argument else call_handler c
  on_key c key_invalid = fail invalid_argument

  -- `intercept`
  pub intercept : Call Msg → Act
  intercept c = on_key c (key_from_context c.entries)
