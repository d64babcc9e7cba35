-- ===== src/Http/Capture.antt =====
-- What a handler does with the writer that it is given, and what the capture makes of it.
pub mod Replayable
pub mod Body
pub mod Committed
use idemlease.Base.{ℕ, Bytes, Bool, List, [], ◌∷◌}
use idemlease.Base.Dict.{insert}
use idemlease.Http.Header.{Header}
use idemlease.Base.Int.{ℤ}
use idemlease.Http.Recorder.{
  Writer, CaptureWriter, Recorder, FlushResult, new_recorder, write_header, write, flush, hijack,
  finalize,
}

-- A handler's call of its `http.ResponseWriter`, with how the underlying writer answered.
pub data CaptureOp : Type 0 where
  set_header : Bytes → List Bytes → CaptureOp
  write_header_op : ℕ → CaptureOp
  write_op : Bytes → CaptureOp
  flush_op : FlushResult → CaptureOp
  hijack_op : Bool → CaptureOp

-- `w.Header()[name] = vs`
unfoldable pub put_header : Bytes → List Bytes → CaptureWriter → CaptureWriter
put_header name vs cw = record cw {
  writer = record (cw.writer) { header = insert name vs cw.writer.header };
}

unfoldable pub step : CaptureOp → CaptureWriter → CaptureWriter
step (set_header name vs) cw = put_header name vs cw
step (write_header_op code) cw = write_header code cw
step (write_op p) cw = write p cw
step (flush_op r) cw = flush r cw
step (hijack_op b) cw = hijack b cw

unfoldable pub run_ops : List CaptureOp → CaptureWriter → CaptureWriter
run_ops [] cw = cw
run_ops (op ∷ ops) cw = run_ops ops (step op cw)

-- The capture writer that the middleware hands to the handler.
abbrev pub new_capture : ℤ → List Bytes → Writer → CaptureWriter
new_capture max_body allow_headers w = record {
  writer = w;
  rec = new_recorder max_body allow_headers;
  wrote_header = Bool.false;
}
