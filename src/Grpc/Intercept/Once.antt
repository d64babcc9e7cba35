-- ===== src/Grpc/Intercept/Once.antt =====
-- How often the interceptor calls the handler.
use idemlease.Base.{
  ℕ, Bool, ◌+◌, ◌≤◌, ◌≡◌, ◌∙◌, refl, Bytes, Bool-cases, Option, none, some, List, [], ◌∷◌, arith,
  inl, inr, true, false,
}
use idemlease.Core.Store.{Result, ok, err, Store, Runtime}
use idemlease.Core.Lease.{
  Options, Action, proceed, replay, reject_in_flight, reject_fingerprint_mismatch, Outcome,
}
use idemlease.Grpc.Key.{CallKey, call_key, key_missing, key_invalid, key_from_context}
use idemlease.Grpc.Payload.{
  Proto, Decoded, message, unsupported_version, corrupted, not_registered, undecodable,
  decode_payload,
}
use idemlease.Grpc.Call.{
  Value, proto_message, typed_nil, no_message, Call, Status, Ended, replied, panicked, UnaryHandler,
  CallConfig, CallEvent, handled, Service,
}
use idemlease.Grpc.Call
use idemlease.Grpc.Intercept.{
  intercept, on_key, on_request, on_marshaled, on_begun, on_outcome, replay_payload, replay_message,
  run_handler, conclude, payload_to_persist, storable_payload, encoded, finish_call, report_finish,
  log_failure, call_handler, accepts,
}

-- The number of times that the handler has been called.
pub calls : {Msg : Type 0} → List (CallEvent Msg) → ℕ
calls [] = 0
calls (handled c ∷ es) = calls es + 1
calls (_ ∷ es) = calls es

module _ {W Msg Typ : Type 0} (s : Store W) (rt : Runtime W) (p : Proto Msg Typ)
    (sha256 : Bytes → Bytes) (cfg : CallConfig Msg) (handler : UnaryHandler W Msg) where
  report_finish-calls :
      (k token : Bytes) (o : Options) (res : Result Bool) (x : Service W Msg)
      → calls (report_finish s rt p sha256 cfg handler k token o res x).1.events ≡ calls x.events
  unfolding calls report_finish log_failure
  report_finish-calls k token o (err e) x = ground arith
  report_finish-calls k token o (ok true) x = refl
  report_finish-calls k token o (ok false) x = refl

  finish_call-calls :
      (k token : Bytes) (o : Options) (payload : Option Bytes) (x : Service W Msg)
      → calls (finish_call s rt p sha256 cfg handler k token o payload x).1.events ≡ calls x.events
  unfolding calls finish_call log_failure
  finish_call-calls k token o none x = ground arith
  finish_call-calls k token o (some payload) x = report_finish-calls k token o _ _

  payload_to_persist-calls :
      (resp : Value Msg) (e : Option Status) (x : Service W Msg)
      → calls (payload_to_persist s rt p sha256 cfg handler resp e x).1.events ≡ calls x.events
  unfolding calls payload_to_persist storable_payload encoded
  payload_to_persist-calls resp (some e) x = refl
  payload_to_persist-calls no_message none x = ground arith
  payload_to_persist-calls typed_nil none x = ground arith
  payload_to_persist-calls (proto_message m) none x = ground arith

  conclude-calls :
      (k token : Bytes) (o : Options) (ended : Ended Msg) (x : Service W Msg)
      → calls (conclude s rt p sha256 cfg handler k token o ended x).1.events ≡ calls x.events
  unfolding conclude log_failure
  conclude-calls k token o (panicked v) x = unfold calls in ground arith
  conclude-calls k token o (replied resp e) x =
      finish_call-calls k token o _ _ ∙ payload_to_persist-calls resp e x

  call_handler-calls :
      (c : Call Msg) (x : Service W Msg)
      → calls (call_handler s rt p sha256 cfg handler c x).1.events ≡ calls x.events + 1
  unfolding calls call_handler
  call_handler-calls c x = refl

  replay_payload-calls :
      (payload : Bytes) (x : Service W Msg)
      → calls (replay_payload s rt p sha256 cfg handler payload x).1.events ≡ calls x.events
  unfolding calls replay_payload replay_message
  replay_payload-calls payload x = replayed (decode_payload p payload)
    where
      replayed :
          (d : Decoded Msg)
          → calls (replay_message s rt p sha256 cfg handler d x).1.events ≡ calls x.events
      replayed (message m) = refl
      replayed unsupported_version = refl
      replayed corrupted = refl
      replayed not_registered = refl
      replayed undecodable = refl

  abbrev Once : Ended Msg × Service W Msg → Service W Msg → Type 0
  Once done x = calls done.1.events ≤ calls x.events + 1

  on_outcome-Once :
      (c : Call Msg) (k : Bytes) (o : Options) (a : Action) (out : Outcome) (x : Service W Msg)
      → Once (on_outcome s rt p sha256 cfg handler c k o a out x) x
  unfolding on_outcome run_handler
  on_outcome-Once c k o proceed out x = omega (
    arith,
    conclude-calls k out.token o (call_handler s rt p sha256 cfg handler c x).0
        (call_handler s rt p sha256 cfg handler c x).1,
    call_handler-calls c x,
  )
  on_outcome-Once c k o replay out x = omega (arith, replay_payload-calls out.payload x)
  on_outcome-Once c k o reject_in_flight out x = omega arith
  on_outcome-Once c k o reject_fingerprint_mismatch out x = omega arith

  on_begun-Once :
      (c : Call Msg) (k : Bytes) (o : Options) (res : Result Outcome) (x : Service W Msg)
      → Once (on_begun s rt p sha256 cfg handler c k o res x) x
  unfolding on_begun
  on_begun-Once c k o (ok out) x = on_outcome-Once c k o out.action out x
  on_begun-Once c k o (err e) x = elim (Bool-cases cfg.fail_open) [
    | inl open_mode ↦ simp open_mode (omega (arith, call_handler-calls c (warned x), logged x))
    | inr closed ↦ simp closed (omega arith)
  ]
    where
      warned : Service W Msg → Service W Msg
      warned x = record x { events = Call.proceeding_without_idempotency e ∷ x.events }

      logged : (x : Service W Msg) → calls (warned x).events ≡ calls x.events
      logged x = unfold calls in refl

  on_request-Once :
      (c : Call Msg) (k : Bytes) (v : Value Msg) (x : Service W Msg)
      → Once (on_request s rt p sha256 cfg handler c k v x) x
  unfolding on_request on_marshaled
  on_request-Once c k no_message x = omega arith
  on_request-Once c k typed_nil x = on_begun-Once c _ _ _ _
  on_request-Once c k (proto_message m) x = marshaled (p.marshal m)
    where
      marshaled : (b : Option Bytes) → Once (on_marshaled s rt p sha256 cfg handler c k b x) x
      marshaled none = omega arith
      marshaled (some b) = on_begun-Once c _ _ _ _

  on_key-Once :
      (c : Call Msg) (ck : CallKey) (x : Service W Msg)
      → Once (on_key s rt p sha256 cfg handler c ck x) x
  unfolding on_key
  on_key-Once c (call_key k) x = elim (Bool-cases (accepts s rt p sha256 cfg handler k)) [
    | inl good ↦ rw good (on_request-Once c k c.request x)
    | inr bad ↦ rw bad (omega arith)
  ]
  on_key-Once c key_missing x = elim (Bool-cases cfg.require) [
    | inl needed ↦ simp needed (omega arith)
    | inr optional ↦ simp optional (omega (arith, call_handler-calls c x))
  ]
  on_key-Once c key_invalid x = omega arith

  -- One call runs the handler at most once, over any store, with any protocol buffers and any
  -- configuration.
  pub intercept-calls :
      (c : Call Msg) (x : Service W Msg)
      → calls (intercept s rt p sha256 cfg handler c x).1.events ≤ calls x.events + 1
  unfolding intercept
  intercept-calls c x = on_key-Once c (key_from_context c.entries) x
