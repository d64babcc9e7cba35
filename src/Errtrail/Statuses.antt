-- ===== src/Errtrail/Statuses.antt =====
-- The status that a problem document gets from its code is the one that the middleware chose.
use idemlease.Base.{ℕ, ◌≡◌, Bytes, List, [], ◌∷◌, All}
use idemlease.Core.Store.{Store, Runtime}
use idemlease.Http.Config.{Config}
use idemlease.Http.Exchange.{Request, Handler, Exchange, Event}
use idemlease.Http.Middleware.{serve}
use idemlease.Http.Middleware.Rejections.{AreRejections, serve-AreRejections}
use idemlease.Http.Errors.{HttpError}
use idemlease.Http.Errors.Rejection.{
  IsRejection, missing, invalid, running, different, too_large, no_store, unread, corrupt, too_new,
}
use idemlease.Errtrail.{
  Registration, Errtrail, trail_options, registrations, registration, classify_rejection, told,
  other_rejection,
}

-- The documentation of errtrail: an error keeps the code that it was made with, a registered code has
-- its status and its retryability, and three of the package's own codes have their HTTP statuses.
pub record IsErrtrail {E : Type 0} (t : Errtrail E) : Type 0 where
  pub new_law : (code : ℕ) (message : Bytes) → t.code_of_error (t.new code message) ≡ code
  pub public_law :
      (e : E) (message : Bytes) → t.code_of_error (t.with_public e message) ≡ t.code_of_error e
  pub wrap_law : (e : E) (x : HttpError) → t.code_of_error (t.wrap e x) ≡ t.code_of_error e
  pub register_law :
      All
        (λ (reg : Registration).
          (t.http_status_of reg.code ≡ reg.http_status) × (t.retryable reg.code ≡ reg.is_retryable))
        (registrations t)
  pub unavailable_law : t.http_status_of t.unavailable ≡ 503
  pub invalid_argument_law : t.http_status_of t.invalid_argument ≡ 400
  pub unknown_law : t.http_status_of t.unknown ≡ 500

module _ {E : Type 0} (t : Errtrail E) (law : IsErrtrail t) where
  -- For each rejection of the middleware, with a sentinel or without one: the error that it is
  -- classified as has a code whose HTTP status is the one that the middleware chose, where errtrail
  -- does what its documentation says.
  pub classify_rejection-status :
      (status : ℕ) (e : HttpError)
      → IsRejection status e
      → t.http_status_of (t.code_of_error (classify_rejection t status e)) ≡ status
  unfolding classify_rejection told other_rejection registrations registration
  classify_rejection-status status e missing = rw (law.public_law, law.new_law) law.register_law.0.0
  classify_rejection-status status e invalid =
      rw (law.public_law, law.new_law) law.register_law.1.0.0
  classify_rejection-status status e running =
      rw (law.public_law, law.new_law) law.register_law.1.1.0.0
  classify_rejection-status status e different =
      rw (law.public_law, law.new_law) law.register_law.1.1.1.0.0
  classify_rejection-status status e too_large =
      rw (law.public_law, law.new_law) law.register_law.1.1.1.1.0.0
  classify_rejection-status status e (no_store x) =
      rw (law.public_law, law.new_law) law.unavailable_law
  classify_rejection-status status e (unread x) =
      rw (law.wrap_law, law.new_law) law.invalid_argument_law
  classify_rejection-status status e corrupt = rw (law.wrap_law, law.new_law) law.unknown_law
  classify_rejection-status status e too_new = rw (law.wrap_law, law.new_law) law.unknown_law

  -- The rejections among the events have the statuses of their codes.
  unfoldable pub AreCoded : List Event → Type 0
  AreCoded [] = Unit
  AreCoded (Event.handled rsv r ∷ es) = AreCoded es
  AreCoded (Event.rejected status e ∷ es) =
      (t.http_status_of (t.code_of_error (classify_rejection t status e)) ≡ status) × AreCoded es
  AreCoded (Event.warned m ∷ es) = AreCoded es
  AreCoded (Event.replay_refused ∷ es) = AreCoded es

  coded : (es : List Event) → AreRejections es → AreCoded es
  unfolding AreRejections AreCoded
  coded [] are = tt
  coded (Event.handled rsv r ∷ es) are = coded es are
  coded (Event.rejected status e ∷ es) (fits, are) =
      (classify_rejection-status status e fits, coded es are)
  coded (Event.warned m ∷ es) are = coded es are
  coded (Event.replay_refused ∷ es) are = coded es are

  -- Where errtrail does what its documentation says: over any store, the middleware with the adapter's
  -- options hands the error writer only rejections that it classifies under a code whose HTTP status
  -- is the one that the middleware chose, if that held of those before the request.
  pub serve-AreCoded :
      {W : Type 0} (s : Store W) (rt : Runtime W) (sha256 : Bytes → Bytes) (cfg : Config)
      (next : Handler W) (r : Request) (x : Exchange W)
      → AreRejections x.events
      → AreCoded (serve s rt sha256 (trail_options t cfg) next r x).1.events
  serve-AreCoded s rt sha256 cfg next r x are =
      coded _ (serve-AreRejections s rt sha256 (trail_options t cfg) next r x are)
