-- ===== src/Http/Middleware/Rejections.antt =====
-- Which errors and statuses the middleware hands to the error writer.
use idemlease.Base.{ℕ, Bytes, length, Bool, Bool-cases, true, false, inl, inr}
use idemlease.Base.{Option, none, some, List, [], ◌∷◌, ◌&&◌, not}
use idemlease.Base.Int.{exceeds}
use idemlease.Base.Text.{codes, to_upper}
use idemlease.Core.Store.{Error, Result, ok, err, Store, Runtime}
use idemlease.Core.Lease.{
  Options, Action, proceed, replay, reject_in_flight, reject_fingerprint_mismatch, Outcome,
  Decision, persist, discard, invalid_decision,
}
use idemlease.Http.Errors.{HttpError, key_invalid}
use idemlease.Http.Key.{Parsed, key, rejected, key_from_header}
use idemlease.Http.Header.{values, elem}
use idemlease.Http.Stored.{unmarshal_binary, Unmarshaled, decoded, refused}
use idemlease.Http.Recorder.{Recorder}
use idemlease.Http.RequestBody.{stream, ReadResult, whole, overflow, failed, read_body}
use idemlease.Http.Config.{Config}
use idemlease.Http.Exchange.{
  Request, Handler, Warning, Event, handled, warned, replay_refused, Exchange, Ending, Running,
  note, best_effort_release_failed, release_after_panic_failed, bypassing_large_body,
  proceeding_without_idempotency,
}
use idemlease.Http.Middleware.{
  replay_limit, on_decoded, reject, pass_through, write_replay, report, warn_all, conclude,
  log_failure, release_after_panic, after_handler, run_handler, on_outcome, on_begun, guarded,
  on_body, on_key, serve, valid, is_key_missing,
}
use idemlease.Http.Errors.Rejection.{
  IsRejection, invalid, running, different, too_large, no_store, unread, corrupt,
}
use idemlease.Http.Key.Refusals.{IsAnswerable, key_from_header-IsAnswerable}
use idemlease.Http.Stored.Refusals.{IsAnswered, unmarshal_binary-IsAnswered}

-- Each rejection among the events is a sentinel with its status, or one of the three further errors.
unfoldable pub AreRejections : List Event → Type 0
AreRejections [] = Unit
AreRejections (handled rsv r ∷ es) = AreRejections es
AreRejections (Event.rejected status e ∷ es) = IsRejection status e × AreRejections es
AreRejections (warned m ∷ es) = AreRejections es
AreRejections (replay_refused ∷ es) = AreRejections es

module _ {W : Type 0} (s : Store W) (rt : Runtime W) (sha256 : Bytes → Bytes) (cfg : Config)
    (next : Handler W) where
  abbrev Keeps : Exchange W → Ending × Exchange W → Type 0
  Keeps x done = AreRejections x.events → AreRejections done.1.events

  reject-Keeps :
      (r : Request) (status : ℕ) (e : HttpError) (x : Exchange W)
      → IsRejection status e
      → Keeps x (reject s rt sha256 cfg next r status e x)
  unfolding AreRejections reject
  reject-Keeps r status e x fits are = (fits, are)

  pass_through-Keeps :
      (r : Request) (x : Exchange W) → Keeps x (pass_through s rt sha256 cfg next r x)
  unfolding AreRejections pass_through
  pass_through-Keeps r x are = are

  on_decoded-Keeps :
      (r : Request) (u : Unmarshaled) (x : Exchange W)
      → IsAnswered u
      → Keeps x (on_decoded s rt sha256 cfg next r u x)
  unfolding AreRejections on_decoded reject
  on_decoded-Keeps r (refused e) x fits are = (fits, are)
  on_decoded-Keeps r (decoded sr) x fits are = are

  write_replay-Keeps :
      (r : Request) (payload : Bytes) (x : Exchange W)
      → Keeps x (write_replay s rt sha256 cfg next r payload x)
  unfolding AreRejections write_replay reject
  write_replay-Keeps r payload x are =
      elim (Bool-cases (exceeds (length payload) (replay_limit cfg.max_response_body))) [
        | inl large ↦ rw large (corrupt, are)
        | inr fits ↦ rw fits (
            on_decoded-Keeps r (unmarshal_binary payload) x (unmarshal_binary-IsAnswered payload)
              are)
      ]

  log_failure-Keeps :
      (event : Error → Warning) (res : Result Bool) (x : Exchange W)
      → AreRejections x.events
      → AreRejections (log_failure s rt sha256 cfg next event res x).1.events
  unfolding AreRejections log_failure
  log_failure-Keeps event (ok lost) x are = are
  log_failure-Keeps event (err e) x are = are

  report-Keeps :
      (k token : Bytes) (o : Options) (d : Decision) (res : Result Bool) (x : Exchange W)
      → AreRejections x.events
      → AreRejections (report s rt sha256 cfg next k token o d res x).1.events
  unfolding AreRejections report
  report-Keeps k token o persist (err e) x are =
      log_failure-Keeps best_effort_release_failed _ _ are
  report-Keeps k token o discard (err e) x are = are
  report-Keeps k token o (invalid_decision n) (err e) x are = are
  report-Keeps k token o persist (ok true) x are = are
  report-Keeps k token o discard (ok true) x are = are
  report-Keeps k token o (invalid_decision n) (ok true) x are = are
  report-Keeps k token o persist (ok false) x are = are
  report-Keeps k token o discard (ok false) x are = are
  report-Keeps k token o (invalid_decision n) (ok false) x are = are

  warn_all-Keeps :
      (ms : List Warning) (x : Exchange W)
      → AreRejections x.events
      → AreRejections (warn_all s rt sha256 cfg next ms x).1.events
  unfolding AreRejections warn_all
  warn_all-Keeps [] x are = are
  warn_all-Keeps (m ∷ ms) x are = warn_all-Keeps ms (note (warned m) x) are

  conclude-Keeps :
      (k token : Bytes) (o : Options) (rec : Recorder) (e : Option ℕ) (x : Exchange W)
      → Keeps x (conclude s rt sha256 cfg next k token o rec e x)
  unfolding conclude
  conclude-Keeps k token o rec e x are = report-Keeps k token o _ _ _ (warn_all-Keeps _ x are)

  release_after_panic-Keeps :
      (k token : Bytes) (o : Options) (p : ℕ) (finished : Bool) (x : Exchange W)
      → Keeps x (release_after_panic s rt sha256 cfg next k token o p finished x)
  unfolding AreRejections release_after_panic
  release_after_panic-Keeps k token o p true x are = are
  release_after_panic-Keeps k token o p false x are =
      log_failure-Keeps release_after_panic_failed _ _ are

  after_handler-Keeps :
      (k token : Bytes) (o : Options) (p : Option ℕ) (run : Running W) (x : Exchange W)
      → Keeps x (after_handler s rt sha256 cfg next k token o p run x)
  unfolding after_handler
  after_handler-Keeps k token o (some p) run x are =
      release_after_panic-Keeps k token o p run.finished
        (record x { world = run.world; writer = run.capture.writer }) are
  after_handler-Keeps k token o none run x are = elim (Bool-cases run.finished) [
    | inl done ↦ rw done are
    | inr open_record ↦ rw open_record (conclude-Keeps k token o _ run.error _ are)
  ]

  on_outcome-Keeps :
      (r : Request) (k : Bytes) (o : Options) (a : Action) (out : Outcome) (x : Exchange W)
      → Keeps x (on_outcome s rt sha256 cfg next r k o a out x)
  unfolding on_outcome run_handler AreRejections
  on_outcome-Keeps r k o proceed out x are = after_handler-Keeps k out.token o _ _ _ are
  on_outcome-Keeps r k o replay out x are = write_replay-Keeps r out.payload x are
  on_outcome-Keeps r k o reject_in_flight out x are = reject-Keeps r 409 _ _ running are
  on_outcome-Keeps r k o reject_fingerprint_mismatch out x are =
      reject-Keeps r 422 _ x different are

  on_begun-Keeps :
      (r : Request) (k : Bytes) (o : Options) (res : Result Outcome) (x : Exchange W)
      → Keeps x (on_begun s rt sha256 cfg next r k o res x)
  unfolding on_begun AreRejections pass_through reject
  on_begun-Keeps r k o (ok out) x are = on_outcome-Keeps r k o out.action out x are
  on_begun-Keeps r k o (err e) x are = elim (Bool-cases cfg.fail_open) [
    | inl open_mode ↦
        rw open_mode (pass_through-Keeps r (note (warned (proceeding_without_idempotency e)) x) are)
    | inr closed ↦ rw closed (reject-Keeps r 503 _ x (no_store e) are)
  ]

  on_body-Keeps :
      (r : Request) (k : Bytes) (b : ReadResult) (x : Exchange W)
      → Keeps x (on_body s rt sha256 cfg next r k b x)
  unfolding on_body guarded AreRejections pass_through reject
  on_body-Keeps r k (failed e) x are = reject-Keeps r 400 _ x (unread e) are
  on_body-Keeps r k (overflow prefix) x are = elim (Bool-cases cfg.bypass_large_body) [
    | inl bypass ↦ rw bypass (pass_through-Keeps r (note (warned bypassing_large_body) x) are)
    | inr strict ↦ rw strict (reject-Keeps r 413 _ x too_large are)
  ]
  on_body-Keeps r k (whole body) x are =
      on_begun-Keeps (record r { body = stream body none }) _ _ _ _ are

  on_key-Keeps :
      (r : Request) (p : Parsed) (x : Exchange W)
      → IsAnswerable p
      → Keeps x (on_key s rt sha256 cfg next r p x)
  unfolding on_key
  on_key-Keeps r (rejected e) x fits are = elim (Bool-cases (is_key_missing e && not cfg.require)) [
    | inl pass ↦ rw pass (pass_through-Keeps r x are)
    | inr refuse ↦ rw refuse (reject-Keeps r 400 e x fits are)
  ]
  on_key-Keeps r (key k) x fits are = elim (Bool-cases (valid s rt sha256 cfg next k)) [
    | inl good ↦ rw good (on_body-Keeps r k (read_body r.body cfg.max_request_body) x are)
    | inr bad ↦ rw bad (reject-Keeps r 400 key_invalid x invalid are)
  ]

  -- Over any store and with any configuration, where the rejections before a request are such, so are
  -- those after it: the error writer gets a missing or invalid key with 400, a request in flight with
  -- 409, another fingerprint with 422, a body that is too large with 413, an unavailable store with
  -- 503, or one of three errors that the comment on ErrorWriter does not list: what reading the body
  -- failed with, as 400, and a stored response that is corrupt or of an unsupported version, as 500.
  pub serve-AreRejections :
      (r : Request) (x : Exchange W)
      → AreRejections x.events
      → AreRejections (serve s rt sha256 cfg next r x).1.events
  unfolding serve
  serve-AreRejections r x are = elim (Bool-cases (elem (to_upper r.method) cfg.methods)) [
    | inl guarded_method ↦ rw guarded_method (
        on_key-Keeps r (key_from_header (values (codes "Idempotency-Key") r.header)) x
          (key_from_header-IsAnswerable _) are)
    | inr other ↦ rw other (pass_through-Keeps r x are)
  ]
