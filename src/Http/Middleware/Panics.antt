-- ===== src/Http/Middleware/Panics.antt =====
-- How the middleware settles the reservation of a handler that panics.
use idemlease.Base.{ℕ, ◌≡◌, Bytes, Bool, true, false, some, [], ◌∷◌}
use idemlease.Core.Store.{ok, Store, Runtime}
use idemlease.Core.Lease.{outcome, proceed, discard, finish}
use idemlease.Http.Config.{Config}
use idemlease.Http.Exchange.{Handler, Request, handled, Exchange, panicked}
use idemlease.Http.Middleware.{
  serve, on_begun, on_outcome, run_handler, after_handler, release_after_panic, log_failure,
}
use idemlease.Http.Middleware.Replays.{
  IsGuarded, begin_for, buffered, full_key, limits, run_for, script_for, reservation_for,
  serve-guarded,
}

module _ {W : Type 0} (s : Store W) (rt : Runtime W) (sha256 : Bytes → Bytes) (cfg : Config)
    (next : Handler W) where
  -- When a guarded request proceeds and its handler panics, and a release of its reservation makes no
  -- error, nothing is logged and the panic goes on with its value. If the
  -- handler had not marked the record as finished, the reservation is released first, under its own
  -- token; if it had, the store is left as the handler left it. Nothing that was captured is stored.
  pub serve_panic :
      (r : Request) (k body token : Bytes) (x : Exchange W) (v : ℕ) (freed : Bool)
      → IsGuarded s rt sha256 cfg next r k body
      → let (res, w) = begin_for s rt sha256 cfg next r k body x.world in
        let run = run_for s rt sha256 cfg next r k body token w x.writer in
        let (lost, w2) =
          finish s
            (full_key s rt sha256 cfg next r k body)
            token
            discard
            []
            (limits s rt sha256 cfg next)
            run.world in
        let events =
          handled
            (reservation_for s rt sha256 cfg next r k body token)
            (buffered s rt sha256 cfg next r body)
          ∷ x.events in
        res ≡ ok (record (outcome proceed) { token = token })
        → (script_for s rt sha256 cfg next r k body token).panics ≡ some v
        → lost ≡ ok freed
        → (run.finished ≡ false
            → serve s rt sha256 cfg next r x
              ≡ (panicked v, record { world = w2; writer = run.capture.writer; events = events }))
          × (run.finished ≡ true
              → serve s rt sha256 cfg next r x ≡ (
                panicked v,
                record { world = run.world; writer = run.capture.writer; events = events },
              ))
  unfolding on_begun on_outcome run_handler after_handler release_after_panic log_failure
  serve_panic r k body token x v freed g proceeds panics released = (
    (λ pending.
        rw (serve-guarded s rt sha256 cfg next r k body x g, proceeds, panics, pending, released)),
    (λ finished. rw (serve-guarded s rt sha256 cfg next r k body x g, proceeds, panics, finished)),
  )
