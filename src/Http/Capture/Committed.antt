-- ===== src/Http/Capture/Committed.antt =====
-- Which status and headers are captured: those of the moment when the response is committed.
use idemlease.Base.{ℕ, ◌≤◌, ◌≡◌, refl, ap, Bytes, ltb, Bool, Bool-cases, All}
use idemlease.Base.Int.{ℤ}
use idemlease.Base.{List, [], ◌∷◌, true, false, inl, inr, some, arith, if◌then◌else◌}
use idemlease.Base.Dict.{insert}
use idemlease.Http.Header.{Header}
use idemlease.Http.Recorder.{
  Writer, CaptureWriter, FlushResult, flush_ok, flush_not_supported, flush_failed, allowlist,
  new_recorder, record_status, record_body, abandon, status_of, snapshot, write_header, write_body,
  write, flush, hijack, finalize,
}
use idemlease.Http.Capture.{
  CaptureOp, set_header, write_header_op, write_op, flush_op, hijack_op, put_header, step, run_ops,
  new_capture,
}

-- The status and the header map at the first final status, the first write or the handler's end,
-- whichever comes first.
unfoldable pub committed : List CaptureOp → Header → ℕ × Header
committed [] h = (200, h)
committed (set_header name vs ∷ ops) h = committed ops (insert name vs h)
committed (write_header_op code ∷ ops) h =
    let later = committed ops h in if ltb code 200 then later else (code, h)
committed (write_op p ∷ ops) h = (200, h)
committed (flush_op r ∷ ops) h = committed ops h
committed (hijack_op b ∷ ops) h = committed ops h

-- Status codes are at least 100: net/http panics on any other.
abbrev pub HasStatus : CaptureOp → Type 0
HasStatus (write_header_op code) = 100 ≤ code
HasStatus _ = Unit

-- What has been recorded once the response is committed, and that it is open until then.
record Frozen (allow : List Bytes) (status : ℕ) (h : Header) (cw : CaptureWriter) : Type 0 where
  closed : cw.wrote_header ≡ true
  set : (cw.rec.status ≡ status) × (200 ≤ status)
  kept : cw.rec.header ≡ some (snapshot allow h)

record Open (allow : List Bytes) (h : Header) (cw : CaptureWriter) : Type 0 where
  unset : cw.rec.status ≡ 0
  allowed : cw.rec.allow ≡ allow
  headers : cw.writer.header ≡ h
  pending : cw.wrote_header ≡ false

module _ (allow : List Bytes) where
  step-Frozen :
      (op : CaptureOp) (status : ℕ) (h : Header) (cw : CaptureWriter)
      → Frozen allow status h cw
      → Frozen allow status h (step op cw)
  unfolding step put_header write_header write flush hijack record_body abandon
  step-Frozen (set_header name vs) status h cw f = record {
    closed = f.closed;
    set = f.set;
    kept = f.kept;
  }
  step-Frozen (write_header_op code) status h cw f = ground (arith, f.closed)
  step-Frozen (write_op p) status h cw f = ground (arith, f.closed)
  step-Frozen (flush_op flush_ok) status h cw f = record {
    closed = f.closed;
    set = f.set;
    kept = f.kept;
  }
  step-Frozen (flush_op flush_not_supported) status h cw f = record {
    closed = f.closed;
    set = f.set;
    kept = f.kept;
  }
  step-Frozen (flush_op flush_failed) status h cw f = record {
    closed = f.closed;
    set = f.set;
    kept = f.kept;
  }
  step-Frozen (hijack_op true) status h cw f = record {
    closed = f.closed;
    set = f.set;
    kept = f.kept;
  }
  step-Frozen (hijack_op false) status h cw f = record {
    closed = f.closed;
    set = f.set;
    kept = f.kept;
  }

  run_ops-Frozen :
      (ops : List CaptureOp) (status : ℕ) (h : Header) (cw : CaptureWriter)
      → Frozen allow status h cw
      → Frozen allow status h (run_ops ops cw)
  unfolding run_ops
  run_ops-Frozen [] status h cw f = f
  run_ops-Frozen (op ∷ ops) status h cw f =
      run_ops-Frozen ops status h (step op cw) (step-Frozen op status h cw f)

  finalize-Frozen :
      (status : ℕ) (h : Header) (cw : CaptureWriter)
      → Frozen allow status h cw
      → Frozen allow status h (finalize cw)
  unfolding finalize
  finalize-Frozen status h cw f = ground (arith, f.closed)

  write_header-final :
      (code : ℕ) (h : Header) (cw : CaptureWriter)
      → 200 ≤ code
      → Open allow h cw
      → Frozen allow code h (write_header code cw)
  unfolding write_header record_status
  write_header-final code h cw le o = ground (arith, o.unset, o.allowed, o.headers, o.pending)

  finalize-Open :
      (h : Header) (cw : CaptureWriter) → Open allow h cw → Frozen allow 200 h (finalize cw)
  unfolding finalize record_status
  finalize-Open h cw o = ground (arith, o.unset, o.allowed, o.headers, o.pending)

  put_header-Open :
      (name : Bytes) (vs : List Bytes) (h : Header) (cw : CaptureWriter)
      → Open allow h cw
      → Open allow (insert name vs h) (put_header name vs cw)
  unfolding put_header
  put_header-Open name vs h cw o = record {
    unset = o.unset;
    allowed = o.allowed;
    headers = ap (insert name vs) o.headers;
    pending = o.pending;
  }

  -- An informational status leaves the response open.
  write_header-Open :
      (code : ℕ) (h : Header) (cw : CaptureWriter)
      → 100 ≤ code
      → ltb code 200 ≡ true
      → Open allow h cw
      → Open allow h (write_header code cw)
  unfolding write_header record_status
  write_header-Open code h cw lo hi o = ground (arith, o.unset, o.allowed, o.headers, o.pending)

  flush-Open :
      (r : FlushResult) (h : Header) (cw : CaptureWriter)
      → Open allow h cw
      → Open allow h (flush r cw)
  unfolding flush abandon
  flush-Open flush_ok h cw o = record {
    unset = o.unset;
    allowed = o.allowed;
    headers = o.headers;
    pending = o.pending;
  }
  flush-Open flush_not_supported h cw o = record {
    unset = o.unset;
    allowed = o.allowed;
    headers = o.headers;
    pending = o.pending;
  }
  flush-Open flush_failed h cw o = record {
    unset = o.unset;
    allowed = o.allowed;
    headers = o.headers;
    pending = o.pending;
  }

  hijack-Open :
      (b : Bool) (h : Header) (cw : CaptureWriter) → Open allow h cw → Open allow h (hijack b cw)
  unfolding hijack abandon
  hijack-Open true h cw o = record {
    unset = o.unset;
    allowed = o.allowed;
    headers = o.headers;
    pending = o.pending;
  }
  hijack-Open false h cw o = record {
    unset = o.unset;
    allowed = o.allowed;
    headers = o.headers;
    pending = o.pending;
  }

  write_body-Frozen :
      (p : Bytes) (status : ℕ) (h : Header) (cw : CaptureWriter)
      → Frozen allow status h cw
      → Frozen allow status h (write_body p cw)
  unfolding write_body record_body
  write_body-Frozen p status h cw f = ground (arith, f.closed)

  write-final :
      (p : Bytes) (h : Header) (cw : CaptureWriter)
      → Open allow h cw
      → Frozen allow 200 h (write p cw)
  unfolding write
  write-final p h cw o = simp (o.pending) (
      write_body-Frozen p 200 h (write_header 200 cw) (write_header-final 200 h cw (omega arith) o))

  run_committed :
      (ops : List CaptureOp) (h : Header) (cw : CaptureWriter)
      → All HasStatus ops
      → Open allow h cw
      → let (status, header) = committed ops h in
        Frozen allow status header (finalize (run_ops ops cw))
  unfolding committed run_ops step
  run_committed [] h cw a o = finalize-Open h cw o
  run_committed (set_header name vs ∷ ops) h cw a o =
      run_committed ops (insert name vs h) (put_header name vs cw) a.1
        (put_header-Open name vs h cw o)
  run_committed (write_header_op code ∷ ops) h cw a o = elim (Bool-cases (ltb code 200)) [
    | inl early ↦
        rw early
          (run_committed ops h (write_header code cw) a.1 (write_header-Open code h cw a.0 early o))
    | inr final ↦ rw final (
        finalize-Frozen code h _ (
          run_ops-Frozen ops code h (write_header code cw)
            (write_header-final code h cw (ground arith) o)))
  ]
  run_committed (write_op p ∷ ops) h cw a o =
      finalize-Frozen 200 h _ (run_ops-Frozen ops 200 h (write p cw) (write-final p h cw o))
  run_committed (flush_op r ∷ ops) h cw a o =
      run_committed ops h (flush r cw) a.1 (flush-Open r h cw o)
  run_committed (hijack_op b ∷ ops) h cw a o =
      run_committed ops h (hijack b cw) a.1 (hijack-Open b h cw o)

-- For a handler whose status codes are at least 100, the recorder ends with the status, and with the
-- allowlisted part of the header map, of the moment when the response was committed: the first
-- status from 200 on, the first write (200), or the handler's end (200). Informational statuses
-- before it, and headers and statuses set after it, do not count.
pub captured_is_committed :
    (max : ℤ) (listed : List Bytes) (w : Writer) (ops : List CaptureOp)
    → All HasStatus ops
    → let rec = (finalize (run_ops ops (new_capture max listed w))).rec in
      let (status, header) = committed ops w.header in
      (status_of rec ≡ status) × (rec.header ≡ some (snapshot (allowlist listed []) header))
unfolding status_of new_recorder
captured_is_committed max listed w ops a =
    let f =
      run_committed (allowlist listed []) ops w.header (new_capture max listed w) a
        record { unset = refl; allowed = refl; headers = refl; pending = refl } in
    (ground (arith, f.set), f.kept)
