-- ===== src/Http/Capture/Replayable.antt =====
-- Whatever a handler does, no header that must not be replayed is captured.
use idemlease.Base.{ℕ, ◌≡◌, Bytes, Bool-cases, List, [], ◌∷◌, true, false, ◌||◌, inl, inr}
use idemlease.Base.{Option, none, some}
use idemlease.Base.Int.{ℤ}
use idemlease.Http.Header.{Header, names, elem, Distinct}
use idemlease.Http.Stored.{StoredResponse}
use idemlease.Http.Recorder.{
  Recorder, Writer, CaptureWriter, flush_ok, flush_not_supported, flush_failed, stored_response,
  write_header, write, flush, hijack, finalize, header_or_empty,
}
use idemlease.Http.Recorder.Headers.{
  IsReplayable, AreKept, IsClean, new_recorder-IsClean, record_status-IsClean, record_body-IsClean,
  abandon-IsClean,
}
use idemlease.Http.Capture.{
  CaptureOp, set_header, write_header_op, write_op, flush_op, hijack_op, put_header, step, run_ops,
  new_capture,
}

module _ (listed : List Bytes) where
  abbrev Clean : CaptureWriter → Type 0
  Clean cw = IsClean listed cw.rec

  write_header-Clean : (code : ℕ) (cw : CaptureWriter) → Clean cw → Clean (write_header code cw)
  unfolding write_header
  write_header-Clean code cw c = elim (Bool-cases cw.wrote_header) [
    | inl done ↦ rw done c
    | inr first ↦ rw first (record_status-IsClean listed code cw.writer.header cw.rec c)
  ]

  write-Clean : (p : Bytes) (cw : CaptureWriter) → Clean cw → Clean (write p cw)
  unfolding write
  write-Clean p cw c = elim (Bool-cases cw.wrote_header) [
    | inl done ↦ simp done (record_body-IsClean listed p cw.rec c)
    | inr first ↦
        simp first
          (record_body-IsClean listed p (write_header 200 cw).rec (write_header-Clean 200 cw c))
  ]

  finalize-Clean : (cw : CaptureWriter) → Clean cw → Clean (finalize cw)
  unfolding finalize
  finalize-Clean cw c = elim (Bool-cases cw.wrote_header) [
    | inl done ↦ rw done c
    | inr first ↦ rw first (record_status-IsClean listed 200 cw.writer.header cw.rec c)
  ]

  step-Clean : (op : CaptureOp) (cw : CaptureWriter) → Clean cw → Clean (step op cw)
  unfolding step put_header flush hijack
  step-Clean (set_header name vs) cw c = c
  step-Clean (write_header_op code) cw c = write_header-Clean code cw c
  step-Clean (write_op p) cw c = write-Clean p cw c
  step-Clean (flush_op flush_ok) cw c = abandon-IsClean listed cw.rec c
  step-Clean (flush_op flush_not_supported) cw c = c
  step-Clean (flush_op flush_failed) cw c = abandon-IsClean listed cw.rec c
  step-Clean (hijack_op true) cw c = abandon-IsClean listed cw.rec c
  step-Clean (hijack_op false) cw c = c

  run_ops-Clean : (ops : List CaptureOp) (cw : CaptureWriter) → Clean cw → Clean (run_ops ops cw)
  unfolding run_ops
  run_ops-Clean [] cw c = c
  run_ops-Clean (op ∷ ops) cw c = run_ops-Clean ops (step op cw) (step-Clean op cw c)

  header_or_empty-kept :
      (h : Option Header)
      → AreKept listed h
      → let kept = header_or_empty h in
        ((k : Bytes) → elem k (names kept) ≡ true → IsReplayable listed k) × Distinct (names kept)
  unfolding header_or_empty names elem
  header_or_empty-kept none k = ((λ k e. absurd (cc)), tt)
  header_or_empty-kept (some h) k = k

  stored_response-kept :
      (rec : Recorder) (sr : StoredResponse)
      → IsClean listed rec
      → stored_response rec ≡ some sr
      → ((k : Bytes) → elem k (names sr.header) ≡ true → IsReplayable listed k)
        × Distinct (names sr.header)
  unfolding stored_response
  stored_response-kept rec sr c e = elim (Bool-cases (rec.overflowed || rec.abandoned)) [
    | inl void ↦ absurd (none_some (rw void at e))
    | inr open_capture ↦
        rw (← some_header (rw open_capture at e)) (header_or_empty-kept rec.header c.kept)
  ]
    where
      none_some : {A : Type 0} {x : A} → none ≡ some x → ⊥
      none_some h = cc

      some_header : {x y : StoredResponse} → some x ≡ some y → x.header ≡ y.header
      some_header h = cc

  -- Whatever the handler does with the writer, the response that the recorder hands on for replay
  -- has each header name once, and only names that the list given to the recorder has in canonical form; even if listed,
  -- none is Set-Cookie, Authorization, Connection, Transfer-Encoding, Keep-Alive, Upgrade, Trailer, Te,
  -- Proxy-Authenticate or Proxy-Authorization.
  pub captured-IsReplayable :
      (max_body : ℤ) (w : Writer) (ops : List CaptureOp) (sr : StoredResponse)
      → stored_response (finalize (run_ops ops (new_capture max_body listed w))).rec ≡ some sr
      → ((k : Bytes) → elem k (names sr.header) ≡ true → IsReplayable listed k)
        × Distinct (names sr.header)
  captured-IsReplayable max_body w ops sr e =
      stored_response-kept _ sr
        (finalize-Clean _ (run_ops-Clean ops _ (new_recorder-IsClean max_body listed))) e
