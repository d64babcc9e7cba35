-- ===== src/Http/Middleware.antt =====
-- httpidem/httpidem.go: `middleware.ServeHTTP`, over any store, runtime, handler and configuration.
-- SHA-256 is a parameter.
use idemlease.Base.{
  ℕ, ◌+◌, ◌-◌, Bytes, length, ltb, Bool, true, false, ◌&&◌, ◌||◌, not, if◌then◌else◌,
}
use idemlease.Base.{Option, none, some, List, [], ◌∷◌}
use idemlease.Base.Monad.{M, pure, ◌>>=◌, ◌>>◌}
use idemlease.Base.Dict.{insert}
use idemlease.Base.Text.{codes, to_upper}
use idemlease.Core.Store.{Error, Result, ok, err, Store, Runtime}
use idemlease.Core.Lease.{
  Options, effective, Action, proceed, replay, reject_in_flight, reject_fingerprint_mismatch,
  Outcome, Decision, persist, discard, begin, finish,
}
use idemlease.Http.Errors.{
  HttpError, key_missing, key_invalid, in_flight, fingerprint_mismatch, request_body_too_large,
  store_unavailable, reading_body, corrupt_stored_response,
}
use idemlease.Http.Key.{Parsed, key, rejected, key_from_header, store_key}
use idemlease.Http.Header.{values, elem}
use idemlease.Http.Stored.{
  StoredResponse, Unmarshaled, decoded, refused, marshal_binary, unmarshal_binary,
}
use idemlease.Http.Recorder.{Recorder, Writer, CaptureWriter, status_of, stored_response, finalize}
use idemlease.Http.Capture.{new_capture}
use idemlease.Http.Fingerprint.{preimage}
use idemlease.Http.RequestBody.{RequestBody, stream, ReadResult, whole, overflow, failed, read_body}
use idemlease.Http.Config.{Config}
use idemlease.Base.Int.{ℤ, pos, negsuc, exceeds}
use idemlease.Base.Decimal.{to_int64, format_int}
use idemlease.Http.Replay.{write_stored, retry_after_seconds}
use idemlease.Http.Exchange.{
  Request, Reservation, Script, Handler, Warning, bypassing_large_body, streamed, oversized,
  lease_lost, proceeding_without_idempotency, release_after_panic_failed, persist_failed,
  best_effort_release_failed, release_failed, Event, handled, warned, replay_refused, Exchange,
  Ending, returned, panicked, Running, plain_ops, running_ops, note, on_world,
}
use idemlease.Http.Exchange
pub mod Runs
pub mod Rejections
pub mod Replays
pub mod Panics
pub mod Retry
mod Tests
mod RetryTests

abbrev pub max_stored_response_overhead : ℕ
max_stored_response_overhead = 65536

-- `max + maxStoredResponseOverhead` on int64: a sum beyond the largest one wraps.
unfoldable pub replay_limit : ℤ → ℤ
replay_limit (pos m) = to_int64 (m + max_stored_response_overhead)
replay_limit (negsuc m) =
    if ltb m max_stored_response_overhead
    then pos (max_stored_response_overhead - (m + 1))
    else negsuc (m - max_stored_response_overhead)

abbrev is_key_missing : HttpError → Bool
is_key_missing key_missing = true
is_key_missing _ = false

abbrev pub is_persist : Decision → Bool
is_persist persist = true
is_persist _ = false

ending_of : Option ℕ → Ending
ending_of none = returned
ending_of (some p) = panicked p

-- The decision after the policy's: a response that streamed or overflowed is not persisted.
unfoldable pub storable : Recorder → Decision → Decision × List Warning
storable rec persist =
    if rec.abandoned
    then (discard, streamed ∷ [])
    else if rec.overflowed
    then (discard, oversized ∷ [])
    else (persist, [])
storable rec d = (d, [])

unfoldable pub stored_or_empty : Option StoredResponse → StoredResponse
stored_or_empty none = record { status_code = 0; header = []; body = [] }
stored_or_empty (some sr) = sr

-- The payload handed to `Finish`, nil for a decision that is not Persist.
unfoldable pub payload_of : Decision → Recorder → Bytes
unfolding stored_or_empty
payload_of persist rec = marshal_binary (stored_or_empty (stored_response rec))
payload_of _ rec = []

module _ {W : Type 0} (s : Store W) (rt : Runtime W) (sha256 : Bytes → Bytes) (cfg : Config)
    (next : Handler W) where
  abbrev Act : Type 0
  Act = M (Exchange W) Ending

  abbrev warn : Warning → M (Exchange W) (Unit {0})
  warn m x = (tt, note (warned m) x)

  -- `if _, ferr := Finish(...); ferr != nil { log }`
  log_failure : (Error → Warning) → Result Bool → M (Exchange W) (Unit {0})
  log_failure event (ok lost) = pure tt
  log_failure event (err e) = warn (event e)

  -- `cfg.errorWriter.WriteError(w, r, status, err)`, and return.
  pub reject : Request → ℕ → HttpError → Act
  reject r status e x = (
    returned,
    note (Event.rejected status e) (record x { writer = cfg.error_writer r status e x.writer }),
  )

  -- `m.next.ServeHTTP(w, r)`, and return.
  pass_through : Request → Act
  pass_through r x =
      let script = next none r in
      let (w, writer) = plain_ops script.ops (x.world, x.writer) in
      (
        ending_of script.panics,
        record { world = w; writer = writer; events = handled none r ∷ x.events },
      )

  on_decoded : Request → Unmarshaled → Act
  on_decoded r (refused e) x = reject r 500 e (note replay_refused x)
  on_decoded r (decoded sr) x =
      let h =
        if cfg.replayed_header
        then insert (codes "Idempotency-Replayed") (codes "true" ∷ []) x.writer.header
        else x.writer.header in
      (returned, record x { writer = write_stored sr (record (x.writer) { header = h }) })

  -- `writeReplay`
  pub write_replay : Request → Bytes → Act
  write_replay r payload x =
      if exceeds (length payload) (replay_limit cfg.max_response_body)
      then reject r 500 corrupt_stored_response (note replay_refused x)
      else on_decoded r (unmarshal_binary payload) x

  -- The switch on the result of the last `Finish`.
  report : Bytes → Bytes → Options → Decision → Result Bool → M (Exchange W) (Unit {0})
  report k token o persist (err e) = do
    warn (persist_failed e)
    released ← on_world (finish s k token discard [] o)
    log_failure best_effort_release_failed released
  report k token o _ (err e) = warn (release_failed e)
  report k token o d (ok true) = warn lease_lost
  report k token o d (ok false) = pure tt

  warn_all : List Warning → M (Exchange W) (Unit {0})
  warn_all [] = pure tt
  warn_all (m ∷ ms) = do warn m; warn_all ms

  -- After the handler has returned: decide, and finish.
  conclude : Bytes → Bytes → Options → Recorder → Option ℕ → Act
  conclude k token o rec e = do
    let chosen = storable rec (cfg.policy (status_of rec) e)
    warn_all chosen.1
    result ← on_world (finish s k token chosen.0 (payload_of chosen.0 rec) o)
    report k token o chosen.0 result
    pure returned

  -- The deferred function when the handler has panicked.
  release_after_panic : Bytes → Bytes → Options → ℕ → Bool → Act
  release_after_panic k token o p true = pure (panicked p)
  release_after_panic k token o p false = do
    result ← on_world (finish s k token discard [] o)
    log_failure release_after_panic_failed result
    pure (panicked p)

  after_handler : Bytes → Bytes → Options → Option ℕ → Running W → M (Exchange W) Ending
  after_handler k token o (some p) run x =
      release_after_panic k token o p run.finished
        (record x { world = run.world; writer = run.capture.writer })
  after_handler k token o none run x =
      let cw = finalize run.capture in
      let x' = record x { world = run.world; writer = cw.writer } in
      if run.finished then (returned, x') else conclude k token o cw.rec run.error x'

  -- Proceed: the handler runs under the capture.
  run_handler : Request → Bytes → Bytes → Options → Act
  run_handler r k token o x =
      let rsv = some (record { key = k; token = token; options = effective o }) in
      let script = next rsv r in
      let start : Running W = record {
        world = x.world;
        capture = new_capture cfg.max_response_body cfg.store_headers x.writer;
        error = none;
        finished = false;
      } in
      after_handler k token o script.panics (running_ops script.ops start) (note (handled rsv r) x)

  on_outcome : Request → Bytes → Options → Action → Outcome → Act
  on_outcome r k o replay out x = write_replay r out.payload x
  on_outcome r k o reject_in_flight out x =
      let seconds = format_int (pos (retry_after_seconds out.retry_after)) in
      reject r 409 in_flight (record x {
        writer = record (x.writer) {
          header = insert (codes "Retry-After") (seconds ∷ []) x.writer.header;
        };
      })
  on_outcome r k o reject_fingerprint_mismatch out x = reject r 422 fingerprint_mismatch x
  on_outcome r k o proceed out x = run_handler r k out.token o x

  pub on_begun : Request → Bytes → Options → Result Outcome → Act
  on_begun r k o (ok out) = on_outcome r k o out.action out
  on_begun r k o (err e) =
      if cfg.fail_open
      then (do warn (proceeding_without_idempotency e); pass_through r)
      else reject r 503 (store_unavailable e)

  abbrev scope_of : Request → Bytes
  scope_of r = elim (cfg.key_scope) [ none ↦ [] | some f ↦ f r ]

  abbrev options : Options
  options = record { lease_ttl = cfg.lease_ttl; record_ttl = cfg.record_ttl }

  -- With the body read: fingerprint, scope, and `Begin`.
  guarded : Request → Bytes → Bytes → Act
  guarded r k body = do
    let r' = record r { body = stream body none }
    let full = store_key (scope_of r') k
    begun ← on_world (begin s rt full (sha256 (preimage r.method r.path r.raw_query body)) options)
    on_begun r' full options begun

  on_body : Request → Bytes → ReadResult → Act
  on_body r k (failed e) = reject r 400 (reading_body e)
  on_body r k (overflow prefix) =
      if cfg.bypass_large_body
      then (do warn bypassing_large_body; pass_through r)
      else reject r 413 request_body_too_large
  on_body r k (whole body) = guarded r k body

  abbrev valid : Bytes → Bool
  valid k = elim (cfg.key_validator) [ none ↦ true | some f ↦ f k ]

  on_key : Request → Parsed → Act
  on_key r (rejected e) =
      if is_key_missing e && not cfg.require then pass_through r else reject r 400 e
  on_key r (key k) =
      if valid k
      then on_body r k (read_body r.body cfg.max_request_body)
      else reject r 400 key_invalid

  -- `ServeHTTP`
  pub serve : Request → Act
  serve r =
      if elem (to_upper r.method) cfg.methods
      then on_key r (key_from_header (values (codes "Idempotency-Key") r.header))
      else pass_through r
