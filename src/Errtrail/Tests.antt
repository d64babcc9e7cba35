-- ===== src/Errtrail/Tests.antt =====
-- The adapter over an errtrail whose errors are codes.
use idemlease.Base.{ℕ, ◌≡◌, refl, ◌==◌, if◌then◌else◌}
use idemlease.Core.Store.{ok}
use idemlease.Base.{none, [], ◌∷◌}
use idemlease.Base.Text.{codes}
use idemlease.Core.Lease.{reservation}
use idemlease.Memstore.{World, new, store, runtime}
use idemlease.Http.Capture.{write_header_op}
use idemlease.Http.Config.{Config, default_config}
use idemlease.Http.Exchange.{Request, Handler, Exchange, on_writer}
use idemlease.Http.RequestBody.{stream}
use idemlease.Http.Middleware.{serve}
use idemlease.Http.Middleware.Rejections.{AreRejections}
use idemlease.Core.Lease.{persist, discard}
use idemlease.Base.{some}
use idemlease.Http.Policy.{default_decide}
use idemlease.Errtrail.{Errtrail, registrations, registration, trail_policy, trail_options}
use idemlease.Errtrail.Statuses.{IsErrtrail, AreCoded, serve-AreCoded}

status_table : ℕ → ℕ
status_table code =
    if code == 1102
    then 409
    else if code == 1103
    then 422
    else if code == 1104
    then 413
    else if code == 14
    then 503
    else if code == 2
    then 500
    else 400

abbrev trail : Errtrail ℕ
unfolding status_table
trail = record {
  unknown = 2;
  invalid_argument = 3;
  aborted = 10;
  failed_precondition = 9;
  resource_exhausted = 8;
  unavailable = 14;
  new = λ code message. code;
  with_public = λ e message. e;
  wrap = λ e x. e;
  code_of_error = λ e. e;
  code_of = λ e. e;
  retryable = λ code. code == 1102;
  http_status_of = status_table;
  problem_write = λ w e. w;
}

trail-IsErrtrail : IsErrtrail trail
unfolding trail status_table registrations registration
trail-IsErrtrail = record {
  new_law = λ code message. refl;
  public_law = λ e message. refl;
  wrap_law = λ e x. refl;
  register_law = ((refl, refl), ((refl, refl), ((refl, refl), ((refl, refl), ((refl, refl), tt)))));
  unavailable_law = refl;
  invalid_argument_law = refl;
  unknown_law = refl;
}

-- A retryable error of the handler is discarded although the status alone would be kept, and an
-- unclassified one falls back to the status.
retryable_discarded : trail_policy trail 409 (some 1102) ≡ discard
unfolding trail_policy trail
retryable_discarded = refl

unclassified_kept : trail_policy trail 409 (some 2) ≡ persist
unfolding trail_policy trail default_decide
unclassified_kept = refl

-- A server whose handler answers 201, and a request that meets another's lease.
abbrev creating : Handler World
creating rsv r = record { ops = on_writer (write_header_op 201) ∷ []; panics = none }

abbrev post : Request
post = record {
  method = codes "POST";
  path = codes "/orders";
  raw_query = [];
  header = (codes "Idempotency-Key", codes "k1" ∷ []) ∷ [];
  body = stream (codes "{}") none;
}

abbrev busy : Exchange World
busy = record {
  world = record (new 1000 (1 ∷ 1 ∷ []) (ok (171 ∷ []) ∷ [])) {
    recs = (codes "k1", reservation (codes "k1") [] [] 1100) ∷ [];
  };
  writer = record { header = []; sent = [] };
  events = [];
}

abbrev plain : Config
plain = default_config (λ r status e w. w)

none_before : AreRejections []
unfolding AreRejections
none_before = tt

serve-AreCoded_example :
    AreCoded trail trail-IsErrtrail
      (serve store runtime (λ b. b) (trail_options trail plain) creating post busy).1.events
serve-AreCoded_example =
    serve-AreCoded trail trail-IsErrtrail store runtime (λ b. b) plain creating post busy
      none_before
