-- ===== src/Http/Exchange.antt =====
-- One request's handling: the state that the middleware and the handler share, and what a handler is.
use idemlease.Base.{ℕ, Bytes, Bool, true, Option, some, List, [], ◌∷◌}
use idemlease.Base.Monad.{M}
use idemlease.Base.Dict.{insert}
use idemlease.Core.Store.{Error}
use idemlease.Core.Lease.{Options}
use idemlease.Http.Errors.{HttpError}
use idemlease.Http.Header.{Header}
use idemlease.Http.RequestBody.{RequestBody}
use idemlease.Http.Recorder.{Writer, CaptureWriter, Sent, send, wrote, flushed, hijacked}
use idemlease.Http.Capture.{
  CaptureOp, set_header, write_header_op, write_op, flush_op, hijack_op, step,
}

pub record Request : Type 0 where
  pub method : Bytes
  pub path : Bytes
  pub raw_query : Bytes
  pub header : Header
  pub body : RequestBody

-- `Reservation` (httpidem/reservation.go).
pub record Reservation : Type 0 where
  pub key : Bytes
  pub token : Bytes
  pub options : Options

-- What a handler does: it calls its writer, reports an error (`SetError`), marks the record as
-- finished (`MarkFinished`), or acts on the world, time passing included.
pub data HandlerOp (W : Type 0) : Type 0 where
  on_writer : CaptureOp → HandlerOp W
  set_error : ℕ → HandlerOp W
  mark_finished : HandlerOp W
  act : (W → W) → HandlerOp W

-- A handler's run: what it does, and the value that it panics with, if it does.
pub record Script (W : Type 0) : Type 0 where
  pub ops : List (HandlerOp W)
  pub panics : Option ℕ

-- `http.Handler`, by the reservation in the request's context and the request.
abbrev pub Handler : Type 0 → Type 0
Handler W = Option Reservation → Request → Script W

-- The warnings that the middleware logs.
pub data Warning : Type 0 where
  bypassing_large_body streamed oversized lease_lost : Warning
  proceeding_without_idempotency release_after_panic_failed persist_failed : Error → Warning
  best_effort_release_failed release_failed : Error → Warning

-- What happens to a request, besides what is written.
pub data Event : Type 0 where
  handled : Option Reservation → Request → Event
  rejected : ℕ → HttpError → Event
  warned : Warning → Event
  replay_refused : Event

pub record Exchange (W : Type 0) : Type 0 where
  pub world : W
  pub writer : Writer
  pub events : List Event

-- How `ServeHTTP` ends: it returns, or the handler's panic goes on.
pub data Ending : Type 0 where
  returned : Ending
  panicked : ℕ → Ending

-- The call of an operation on the bare writer.
unfoldable pub plain_step : CaptureOp → Writer → Writer
plain_step (set_header name vs) w = record w { header = insert name vs w.header }
plain_step (write_header_op code) w = send (Sent.wrote_header code w.header) w
plain_step (write_op p) w = send (wrote p) w
plain_step (flush_op r) w = send flushed w
plain_step (hijack_op b) w = send hijacked w

-- The handler's state under the middleware: the capture, the error box and the finish box.
pub record Running (W : Type 0) : Type 0 where
  pub world : W
  pub capture : CaptureWriter
  pub error : Option ℕ
  pub finished : Bool

module _ {W : Type 0} where
  -- The handler without the middleware: it writes to the client, and its notes go nowhere.
  unfoldable pub plain_op : HandlerOp W → W × Writer → W × Writer
  plain_op (on_writer op) (w, x) = (w, plain_step op x)
  plain_op (set_error e) s = s
  plain_op mark_finished s = s
  plain_op (act f) (w, x) = (f w, x)

  unfoldable pub plain_ops : List (HandlerOp W) → W × Writer → W × Writer
  plain_ops [] s = s
  plain_ops (op ∷ ops) s = plain_ops ops (plain_op op s)

  -- The handler under the middleware (`SetError`, `MarkFinished` and the capture writer).
  unfoldable pub running_op : HandlerOp W → Running W → Running W
  running_op (on_writer op) r = record r { capture = step op r.capture }
  running_op (set_error e) r = record r { error = some e }
  running_op mark_finished r = record r { finished = true }
  running_op (act f) r = record r { world = f r.world }

  unfoldable pub running_ops : List (HandlerOp W) → Running W → Running W
  running_ops [] r = r
  running_ops (op ∷ ops) r = running_ops ops (running_op op r)

  abbrev pub note : Event → Exchange W → Exchange W
  note e x = record x { events = e ∷ x.events }

  -- An operation on the world alone.
  abbrev pub on_world : {A : Type 0} → M W A → M (Exchange W) A
  on_world m x = let (a, w) = m x.world in (a, record x { world = w })
