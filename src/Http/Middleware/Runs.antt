-- ===== src/Http/Middleware/Runs.antt =====
-- How often the middleware runs the handler.
use idemlease.Base.{
  ℕ, ◌+◌, ◌≤◌, ◌≡◌, ◌∙◌, refl, Bytes, length, Bool, Bool-cases, true, false, inl, inr,
}
use idemlease.Base.{Option, none, some, List, [], ◌∷◌, arith, ◌&&◌, not}
use idemlease.Base.Int.{exceeds}
use idemlease.Base.Text.{codes, to_upper}
use idemlease.Core.Store.{Error, Result, ok, err, Store, Runtime}
use idemlease.Core.Lease.{
  Options, Action, proceed, replay, reject_in_flight, reject_fingerprint_mismatch, Outcome,
  Decision, persist, discard, invalid_decision, begin,
}
use idemlease.Http.Errors.{
  HttpError, key_invalid, reading_body, request_body_too_large, store_unavailable,
}
use idemlease.Http.Key.{Parsed, key, rejected, key_from_header, store_key}
use idemlease.Http.Header.{values, elem}
use idemlease.Http.Stored.{unmarshal_binary, Unmarshaled, decoded, refused}
use idemlease.Http.Recorder.{Recorder}
use idemlease.Http.Fingerprint.{preimage}
use idemlease.Http.RequestBody.{stream, ReadResult, whole, overflow, failed, read_body}
use idemlease.Http.Config.{Config}
use idemlease.Http.Exchange.{
  Request, Handler, Warning, Event, handled, warned, replay_refused, Exchange, Ending, Running,
  note, on_world, bypassing_large_body, proceeding_without_idempotency,
}
use idemlease.Http.Middleware.{
  replay_limit, on_decoded, reject, pass_through, write_replay, report, warn_all, conclude,
  log_failure, release_after_panic, after_handler, run_handler, on_outcome, on_begun, guarded,
  on_body, on_key, serve, scope_of, options, valid, is_key_missing,
}

-- The number of times that the handler has been run.
pub runs : List Event → ℕ
runs [] = 0
runs (handled rsv r ∷ es) = runs es + 1
runs (Event.rejected status e ∷ es) = runs es
runs (warned m ∷ es) = runs es
runs (replay_refused ∷ es) = runs es

module _ {W : Type 0} (s : Store W) (rt : Runtime W) (sha256 : Bytes → Bytes) (cfg : Config)
    (next : Handler W) where
  reject-runs :
      (r : Request) (status : ℕ) (e : HttpError) (x : Exchange W)
      → runs (reject s rt sha256 cfg next r status e x).1.events ≡ runs x.events
  unfolding runs reject
  reject-runs r status e x = refl

  pass_through-runs :
      (r : Request) (x : Exchange W)
      → runs (pass_through s rt sha256 cfg next r x).1.events ≡ runs x.events + 1
  unfolding runs pass_through
  pass_through-runs r x = refl

  write_replay-runs :
      (r : Request) (payload : Bytes) (x : Exchange W)
      → runs (write_replay s rt sha256 cfg next r payload x).1.events ≡ runs x.events
  unfolding runs write_replay on_decoded reject
  write_replay-runs r payload x =
      elim (Bool-cases (exceeds (length payload) (replay_limit cfg.max_response_body))) [
        | inl large ↦ rw large
        | inr fits ↦ rw fits (replayed (unmarshal_binary payload))
      ]
    where
      replayed :
          (u : Unmarshaled) → runs (on_decoded s rt sha256 cfg next r u x).1.events ≡ runs x.events
      replayed (refused e) = refl
      replayed (decoded sr) = refl

  report-runs :
      (k token : Bytes) (o : Options) (d : Decision) (res : Result Bool) (x : Exchange W)
      → runs (report s rt sha256 cfg next k token o d res x).1.events ≡ runs x.events
  unfolding runs report log_failure
  report-runs k token o persist (err e) x = ground arith
  report-runs k token o discard (err e) x = refl
  report-runs k token o (invalid_decision n) (err e) x = refl
  report-runs k token o d (ok true) x = ground arith
  report-runs k token o d (ok false) x = ground arith

  warn_all-runs :
      (ms : List Warning) (x : Exchange W)
      → runs (warn_all s rt sha256 cfg next ms x).1.events ≡ runs x.events
  unfolding runs warn_all
  warn_all-runs [] x = refl
  warn_all-runs (m ∷ ms) x = warn_all-runs ms (note (warned m) x)

  conclude-runs :
      (k token : Bytes) (o : Options) (rec : Recorder) (e : Option ℕ) (x : Exchange W)
      → runs (conclude s rt sha256 cfg next k token o rec e x).1.events ≡ runs x.events
  unfolding conclude
  conclude-runs k token o rec e x = report-runs k token o _ _ _ ∙ warn_all-runs _ x

  release_after_panic-runs :
      (k token : Bytes) (o : Options) (p : ℕ) (finished : Bool) (x : Exchange W)
      → runs (release_after_panic s rt sha256 cfg next k token o p finished x).1.events
        ≡ runs x.events
  unfolding runs release_after_panic log_failure
  release_after_panic-runs k token o p true x = refl
  release_after_panic-runs k token o p false x = ground arith

  after_handler-runs :
      (k token : Bytes) (o : Options) (p : Option ℕ) (run : Running W) (x : Exchange W)
      → runs (after_handler s rt sha256 cfg next k token o p run x).1.events ≡ runs x.events
  unfolding after_handler
  after_handler-runs k token o (some p) run x =
      release_after_panic-runs k token o p run.finished
        (record x { world = run.world; writer = run.capture.writer })
  after_handler-runs k token o none run x = elim (Bool-cases run.finished) [
    | inl done ↦ simp done
    | inr open_record ↦ simp open_record (conclude-runs k token o _ run.error _)
  ]

  run_handler-runs :
      (r : Request) (k token : Bytes) (o : Options) (x : Exchange W)
      → runs (run_handler s rt sha256 cfg next r k token o x).1.events ≡ runs x.events + 1
  unfolding run_handler
  run_handler-runs r k token o x = after_handler-runs k token o _ _ _ ∙ unfold runs in refl

  -- The handler runs once if `Begin` proceeded, and not at all otherwise.
  on_outcome-runs :
      (r : Request) (k : Bytes) (o : Options) (a : Action) (out : Outcome) (x : Exchange W)
      → runs (on_outcome s rt sha256 cfg next r k o a out x).1.events
        ≡ (elim a [ proceed ↦ runs x.events + 1 | _ ↦ runs x.events ])
  unfolding on_outcome
  on_outcome-runs r k o proceed out x = run_handler-runs r k out.token o x
  on_outcome-runs r k o replay out x = write_replay-runs r out.payload x
  on_outcome-runs r k o reject_in_flight out x = reject-runs r 409 _ _
  on_outcome-runs r k o reject_fingerprint_mismatch out x = reject-runs r 422 _ x

  abbrev Once : Ending × Exchange W → Exchange W → Type 0
  Once done x = runs done.1.events ≤ runs x.events + 1

  on_begun-Once :
      (r : Request) (k : Bytes) (o : Options) (res : Result Outcome) (x : Exchange W)
      → Once (on_begun s rt sha256 cfg next r k o res x) x
  unfolding on_begun
  on_begun-Once r k o (ok out) x = action_once out.action
    where
      action_once : (a : Action) → Once (on_outcome s rt sha256 cfg next r k o a out x) x
      action_once proceed = omega (arith, on_outcome-runs r k o proceed out x)
      action_once replay = omega (arith, on_outcome-runs r k o replay out x)
      action_once reject_in_flight = omega (arith, on_outcome-runs r k o reject_in_flight out x)
      action_once reject_fingerprint_mismatch =
          omega (arith, on_outcome-runs r k o reject_fingerprint_mismatch out x)
  on_begun-Once r k o (err e) x = elim (Bool-cases cfg.fail_open) [
    | inl open_mode ↦ simp open_mode (
        omega (
          arith,
          pass_through-runs r (note (warned (proceeding_without_idempotency e)) x),
          unfolded e,
        ))
    | inr closed ↦ simp closed (omega (arith, reject-runs r 503 (store_unavailable e) x))
  ]
    where
      unfolded :
          (e : Error)
          → runs (note (warned (proceeding_without_idempotency e)) x).events ≡ runs x.events
      unfolded e = unfold runs in refl

  on_body-Once :
      (r : Request) (k : Bytes) (b : ReadResult) (x : Exchange W)
      → Once (on_body s rt sha256 cfg next r k b x) x
  unfolding on_body guarded
  on_body-Once r k (failed e) x = omega (arith, reject-runs r 400 (reading_body e) x)
  on_body-Once r k (overflow prefix) x = elim (Bool-cases cfg.bypass_large_body) [
    | inl bypass ↦
        simp bypass
          (omega (arith, pass_through-runs r (note (warned bypassing_large_body) x), same))
    | inr strict ↦ simp strict (omega (arith, reject-runs r 413 request_body_too_large x))
  ]
    where
      same : runs (note (warned bypassing_large_body) x).events ≡ runs x.events
      same = unfold runs in refl
  on_body-Once r k (whole body) x =
      let r' = record r { body = stream body none } in
      let full = store_key (scope_of s rt sha256 cfg next r') k in
      let (res, x') =
        on_world
          (begin s rt full (sha256 (preimage r.method r.path r.raw_query body))
            (options s rt sha256 cfg next))
          x in
      on_begun-Once r' full (options s rt sha256 cfg next) res x'

  on_key-Once :
      (r : Request) (p : Parsed) (x : Exchange W) → Once (on_key s rt sha256 cfg next r p x) x
  unfolding on_key
  on_key-Once r (rejected e) x = elim (Bool-cases (is_key_missing e && not cfg.require)) [
    | inl pass ↦ rw pass (omega (arith, pass_through-runs r x))
    | inr refuse ↦ rw refuse (omega (arith, reject-runs r 400 e x))
  ]
  on_key-Once r (key k) x = elim (Bool-cases (valid s rt sha256 cfg next k)) [
    | inl good ↦ rw good (on_body-Once r k (read_body r.body cfg.max_request_body) x)
    | inr bad ↦ rw bad (omega (arith, reject-runs r 400 key_invalid x))
  ]

  -- One request runs the handler at most once, over any store and with any configuration.
  pub serve-runs_once :
      (r : Request) (x : Exchange W)
      → runs (serve s rt sha256 cfg next r x).1.events ≤ runs x.events + 1
  unfolding serve
  serve-runs_once r x = elim (Bool-cases (elem (to_upper r.method) cfg.methods)) [
    | inl guarded_method ↦
        rw guarded_method
          (on_key-Once r (key_from_header (values (codes "Idempotency-Key") r.header)) x)
    | inr other ↦ rw other (omega (arith, pass_through-runs r x))
  ]
