-- ===== src/Http/Capture/Body.antt =====
-- Which bodies are captured: all that was written, up to the limit, unless the response streamed.
use mathlib.Core.List.{append_assoc, append-nil}
use idemlease.Base.{ℕ, ◌≤◌, ◌<◌, ◌≡◌, ◌⊎◌, refl, Bytes, length, length-append, Bool, Bool-cases}
use idemlease.Base.{List, [], ◌∷◌, ◌++◌, true, false, ◌||◌, inl, inr, none, some, arith}
use idemlease.Base.Int.{pos}
use idemlease.Http.Header.{Header}
use idemlease.Http.Stored.{StoredResponse}
use idemlease.Http.Recorder.{
  Recorder, Writer, CaptureWriter, flush_ok, flush_not_supported, flush_failed, new_recorder,
  record_status, record_body, abandon, stored_response, write_header, write, flush, hijack,
  finalize, status_of, header_or_empty,
}
use idemlease.Http.Capture.{
  CaptureOp, set_header, write_header_op, write_op, flush_op, hijack_op, put_header, step, run_ops,
  new_capture,
}

-- The bytes that one call writes, and whether it starts a stream.
abbrev pub bytes_of : CaptureOp → Bytes
bytes_of (write_op p) = p
bytes_of _ = []

abbrev pub streams_by : CaptureOp → Bool
streams_by (flush_op flush_not_supported) = false
streams_by (flush_op _) = true
streams_by (hijack_op b) = b
streams_by _ = false

-- The bytes that the handler writes in all, and whether it streams at all.
unfoldable pub written : List CaptureOp → Bytes
written [] = []
written (op ∷ ops) = bytes_of op ++ written ops

unfoldable pub streams : List CaptureOp → Bool
streams [] = false
streams (op ∷ ops) = streams_by op || streams ops

or_false : (b : Bool) → (b || false) ≡ b
or_false true = refl
or_false false = refl

or_true : (b : Bool) → (b || true) ≡ true
or_true true = refl
or_true false = refl

or_assoc : (a b c : Bool) → ((a || b) || c) ≡ (a || (b || c))
or_assoc true b c = refl
or_assoc false b c = refl

-- The recorder after the bytes `acc`, by whether the response has streamed.
record Captures (max : ℕ) (acc : Bytes) (streamed : Bool) (rec : Recorder) : Type 0 where
  limit : rec.max_body ≡ pos max
  voided : rec.abandoned ≡ streamed
  within : streamed ≡ false → length acc ≤ max → (rec.overflowed ≡ false) × (rec.body ≡ acc)
  beyond : streamed ≡ false → max < length acc → rec.overflowed ≡ true

module _ (max : ℕ) (acc : Bytes) (streamed : Bool) where
  record_status-Captures :
      (status : ℕ) (h : Header) (rec : Recorder)
      → Captures max acc streamed rec
      → Captures max acc streamed (record_status status h rec)
  unfolding record_status
  record_status-Captures status h rec c = ground arith

  record_body-Captures :
      (p : Bytes) (rec : Recorder)
      → Captures max acc streamed rec
      → Captures max (acc ++ p) streamed (record_body p rec)
  unfolding record_body
  record_body-Captures p rec c = ground (arith, length-append acc p)

  abandon-Captures :
      (rec : Recorder) → Captures max acc streamed rec → Captures max acc true (abandon rec)
  unfolding abandon
  abandon-Captures rec c = ground arith

module _ (max : ℕ) where
  abbrev State : Bytes → Bool → CaptureWriter → Type 0
  State acc streamed cw = Captures max acc streamed cw.rec

  write_header-State :
      (code : ℕ) (acc : Bytes) (streamed : Bool) (cw : CaptureWriter)
      → State acc streamed cw
      → State acc streamed (write_header code cw)
  unfolding write_header
  write_header-State code acc streamed cw c = elim (Bool-cases cw.wrote_header) [
    | inl done ↦ simp done c
    | inr first ↦
        simp first (record_status-Captures max acc streamed code cw.writer.header cw.rec c)
  ]

  write-State :
      (p acc : Bytes) (streamed : Bool) (cw : CaptureWriter)
      → State acc streamed cw
      → State (acc ++ p) streamed (write p cw)
  unfolding write
  write-State p acc streamed cw c = elim (Bool-cases cw.wrote_header) [
    | inl done ↦ simp done (record_body-Captures max acc streamed p cw.rec c)
    | inr first ↦ simp first (
        record_body-Captures max acc streamed p (write_header 200 cw).rec
          (write_header-State 200 acc streamed cw c))
  ]

  finalize-State :
      (acc : Bytes) (streamed : Bool) (cw : CaptureWriter)
      → State acc streamed cw
      → State acc streamed (finalize cw)
  unfolding finalize
  finalize-State acc streamed cw c = elim (Bool-cases cw.wrote_header) [
    | inl done ↦ simp done c
    | inr first ↦ simp first (record_status-Captures max acc streamed 200 cw.writer.header cw.rec c)
  ]

  step-State :
      (op : CaptureOp) (acc : Bytes) (streamed : Bool) (cw : CaptureWriter)
      → State acc streamed cw
      → State (acc ++ bytes_of op) (streamed || streams_by op) (step op cw)
  unfolding step put_header flush hijack
  step-State (set_header name vs) acc st cw c = rw (append-nil, or_false) c
  step-State (write_header_op code) acc st cw c =
      rw (append-nil, or_false) (write_header-State code acc st cw c)
  step-State (write_op p) acc st cw c = rw or_false (write-State p acc st cw c)
  step-State (flush_op flush_ok) acc st cw c =
      rw (append-nil, or_true) (abandon-Captures max acc st cw.rec c)
  step-State (flush_op flush_not_supported) acc st cw c = rw (append-nil, or_false) c
  step-State (flush_op flush_failed) acc st cw c =
      rw (append-nil, or_true) (abandon-Captures max acc st cw.rec c)
  step-State (hijack_op true) acc st cw c =
      rw (append-nil, or_true) (abandon-Captures max acc st cw.rec c)
  step-State (hijack_op false) acc st cw c = rw (append-nil, or_false) c

  run_ops-State :
      (ops : List CaptureOp) (acc : Bytes) (streamed : Bool) (cw : CaptureWriter)
      → State acc streamed cw
      → State (acc ++ written ops) (streamed || streams ops) (run_ops ops cw)
  unfolding run_ops written streams
  run_ops-State [] acc st cw c = rw (append-nil, or_false) c
  run_ops-State (op ∷ ops) acc st cw c =
      rw
        (
          ← append_assoc acc (bytes_of op) (written ops),
          ← or_assoc st (streams_by op) (streams ops),
        )
        (run_ops-State ops (acc ++ bytes_of op) (st || streams_by op) (step op cw)
          (step-State op acc st cw c))

new_recorder-Captures :
    (max : ℕ) (listed : List Bytes) → Captures max [] false (new_recorder (pos max) listed)
unfolding new_recorder
new_recorder-Captures max listed = ground arith

stored-Captures :
    (max : ℕ) (all : Bytes) (streamed : Bool) (rec : Recorder)
    → Captures max all streamed rec
    → (streamed ≡ false
        → length all ≤ max
        → (sr : StoredResponse) × (stored_response rec ≡ some sr) × (sr.body ≡ all))
      × ((streamed ≡ true) ⊎ (max < length all) → stored_response rec ≡ none)
unfolding stored_response
stored-Captures max all streamed rec c = (
  (λ quiet fits.
      let (kept, body) = c.within quiet fits in
      let open_capture : (rec.overflowed || rec.abandoned) ≡ false = ground (arith, c.voided) in
      (
        record {
          status_code = status_of rec;
          header = header_or_empty rec.header;
          body = rec.body;
        },
        rw open_capture,
        body,
      )),
  (λ h. elim h [
    | inl st ↦ ground (arith, c.voided)
    | inr over ↦ elim (Bool-cases streamed) [
      | inl st ↦ ground (arith, c.voided)
      | inr quiet ↦ rw (c.beyond quiet over)
    ]
  ]),
)

-- If the handler never streams and writes no more than the limit, the captured body is all that it
-- wrote, in order. If it streams (a flush that is supported, or a hijack), or writes more than the
-- limit, there is nothing to replay.
pub captured_body :
    (max : ℕ) (listed : List Bytes) (w : Writer) (ops : List CaptureOp)
    → let stored = stored_response (finalize (run_ops ops (new_capture (pos max) listed w))).rec in
      (streams ops ≡ false
        → length (written ops) ≤ max
        → (sr : StoredResponse) × (stored ≡ some sr) × (sr.body ≡ written ops))
      × ((streams ops ≡ true) ⊎ (max < length (written ops)) → stored ≡ none)
unfolding stored_response
captured_body max listed w ops =
    let cw = run_ops ops (new_capture (pos max) listed w) in
    stored-Captures max (written ops) (streams ops) (finalize cw).rec (
      finalize-State max (written ops) (streams ops) cw (
        run_ops-State max ops [] false (new_capture (pos max) listed w)
          (new_recorder-Captures max listed)))
