-- ===== src/Http/Errors/Rejection.antt =====
-- The rejections of the middleware with their statuses: the sentinels of httpidem/errors.go, and three
-- errors that its comment on `ErrorWriter` does not list.
use idemlease.Base.{ℕ}
use idemlease.Core.Store.{Error}
use idemlease.Http.Errors.{
  HttpError, key_missing, key_invalid, in_flight, fingerprint_mismatch, request_body_too_large,
  store_unavailable, reading_body, corrupt_stored_response, unsupported_version,
}

-- The error is a sentinel of the package with its status, or one of three more that `ServeHTTP` and
-- `writeReplay` pass on: what reading the body failed with, a stored response that is corrupt, and one
-- of a version that is not supported.
pub data IsRejection : ℕ → HttpError → Type 0 where
  missing : IsRejection 400 key_missing
  invalid : IsRejection 400 key_invalid
  running : IsRejection 409 in_flight
  different : IsRejection 422 fingerprint_mismatch
  too_large : IsRejection 413 request_body_too_large
  no_store : (e : Error) → IsRejection 503 (store_unavailable e)
  unread : (e : Error) → IsRejection 400 (reading_body e)
  corrupt : IsRejection 500 corrupt_stored_response
  too_new : IsRejection 500 unsupported_version
