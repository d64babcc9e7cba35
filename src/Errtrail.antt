-- ===== src/Errtrail.antt =====
-- errtrailadapter/errtrailadapter.go: rejections and handler errors by the codes of errtrail, which is a
-- parameter.
pub mod Statuses
mod Tests
use idemlease.Base.{
  ℕ, ltb, leb, ◌==◌, ◌&&◌, Bytes, Bool, true, false, if◌then◌else◌, Option, none, some, List, [],
  ◌∷◌,
}
use idemlease.Base.Text.{codes}
use idemlease.Core.Lease.{Decision, persist, discard}
use idemlease.Http.Errors.{
  HttpError, key_missing, key_invalid, in_flight, fingerprint_mismatch, request_body_too_large,
  store_unavailable, reading_body, corrupt_stored_response, unsupported_version,
}
use idemlease.Http.Policy.{ReplayPolicy, default_decide}
use idemlease.Http.Config.{Config, with_errors, with_policy}
use idemlease.Http.Exchange.{Request}
use idemlease.Http.Recorder.{Writer}

-- What `Register` is told of a code.
pub record Registration : Type 0 where
  pub code : ℕ
  pub name : Bytes
  pub http_status : ℕ
  pub grpc_of : ℕ
  pub is_retryable : Bool

-- The package errtrail: its own codes, its errors, and the registry as it is after the registrations.
-- The error that a handler reports is a number, as in the middleware.
pub record Errtrail (E : Type 0) : Type 0 where
  pub unknown : ℕ
  pub invalid_argument : ℕ
  pub aborted : ℕ
  pub failed_precondition : ℕ
  pub resource_exhausted : ℕ
  pub unavailable : ℕ
  pub new : ℕ → Bytes → E
  pub with_public : E → Bytes → E
  pub wrap : E → HttpError → E
  pub code_of_error : E → ℕ
  pub code_of : ℕ → ℕ
  pub retryable : ℕ → Bool
  pub http_status_of : ℕ → ℕ
  pub problem_write : Writer → E → Writer

abbrev pub code_key_missing : ℕ
code_key_missing = 1100

abbrev pub code_key_invalid : ℕ
code_key_invalid = 1101

abbrev pub code_in_flight : ℕ
code_in_flight = 1102

abbrev pub code_payload_mismatch : ℕ
code_payload_mismatch = 1103

abbrev pub code_body_too_large : ℕ
code_body_too_large = 1104

module _ {E : Type 0} (t : Errtrail E) where
  registration : ℕ → Bytes → ℕ → ℕ → Bool → Registration
  registration code name status grpc retry = record {
    code = code;
    name = name;
    http_status = status;
    grpc_of = grpc;
    is_retryable = retry;
  }

  -- `init`
  unfoldable pub registrations : List Registration
  unfolding registration
  registrations =
      registration code_key_missing (codes "IDEMPOTENCY_KEY_MISSING") 400 t.invalid_argument false
      ∷ registration code_key_invalid (codes "IDEMPOTENCY_KEY_INVALID") 400 t.invalid_argument false
      ∷ registration code_in_flight (codes "IDEMPOTENCY_IN_FLIGHT") 409 t.aborted true
      ∷ registration code_payload_mismatch (codes "IDEMPOTENCY_PAYLOAD_MISMATCH") 422
          t.failed_precondition false
      ∷ registration code_body_too_large (codes "IDEMPOTENCY_BODY_TOO_LARGE") 413
          t.resource_exhausted false
      ∷ []

  told : ℕ → Bytes → Bytes → E
  told code message public_message = t.with_public (t.new code message) public_message

  -- The last case of `classify`.
  other_rejection : ℕ → HttpError → E
  other_rejection status e =
      t.wrap
        (t.new (if leb 400 status && ltb status 500 then t.invalid_argument else t.unknown)
          (codes "idempotency rejection"))
        e

  -- `classify`; the middleware passes no nil error.
  unfoldable pub classify_rejection : ℕ → HttpError → E
  unfolding told other_rejection
  classify_rejection status key_missing =
      told code_key_missing (codes "idempotency key missing")
        (codes "The Idempotency-Key header is required.")
  classify_rejection status key_invalid =
      told code_key_invalid (codes "idempotency key invalid")
        (codes "The Idempotency-Key header is malformed.")
  classify_rejection status in_flight =
      told code_in_flight (codes "duplicate request in flight")
        (codes "A request with this Idempotency-Key is being processed. Retry later.")
  classify_rejection status fingerprint_mismatch =
      told code_payload_mismatch (codes "idempotency payload mismatch")
        (codes "This Idempotency-Key was already used with a different request.")
  classify_rejection status request_body_too_large =
      told code_body_too_large (codes "request body too large for idempotency")
        (codes "The request body is too large.")
  classify_rejection status (store_unavailable e) =
      told t.unavailable (codes "idempotency store unavailable")
        (codes "The service is temporarily unavailable. Retry later.")
  classify_rejection status (reading_body e) = other_rejection status (reading_body e)
  classify_rejection status corrupt_stored_response = other_rejection status corrupt_stored_response
  classify_rejection status unsupported_version = other_rejection status unsupported_version

  -- `errorWriter.WriteError`
  unfoldable pub write_error : Request → ℕ → HttpError → Writer → Writer
  write_error r status e w = t.problem_write w (classify_rejection status e)

  -- `Policy`
  unfoldable pub trail_policy : ReplayPolicy
  trail_policy status none = default_decide status none
  trail_policy status (some e) =
      let code = t.code_of e in
      if code == t.unknown
      then default_decide status (some e)
      else if t.retryable code
      then discard
      else persist

  -- `Options`, in the order that they apply.
  abbrev pub trail_options : Config → Config
  trail_options cfg = with_policy trail_policy (with_errors write_error cfg)
