-- ===== src/Http/Errors.antt =====
-- httpidem/errors.go: the sentinels handed to the error writer.
pub mod Rejection
use idemlease.Core.Store.{Error}

-- An error that the middleware makes: a sentinel, possibly wrapped with detail, or what reading the
-- request body gave, or a corrupted stored response.
pub data HttpError : Type 0 where
  key_missing key_invalid in_flight fingerprint_mismatch request_body_too_large : HttpError
  store_unavailable : Error → HttpError
  reading_body : Error → HttpError
  corrupt_stored_response unsupported_version : HttpError
