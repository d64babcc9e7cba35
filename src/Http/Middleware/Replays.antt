-- ===== src/Http/Middleware/Replays.antt =====
-- A response that the middleware has persisted is what it answers a retry with.
use idemlease.Base.{
  ℕ, ◌+◌, ◌<◌, ◌%◌, ◌^◌, ◌≤◌, ◌≡◌, refl, Bytes, length, ltb, Bool-cases, true, false,
}
use idemlease.Base.{Option, none, some, [], ◌∷◌, arith, if◌then◌else◌, inl, inr, ◌||◌}
use idemlease.Base.Dict.{insert}
use idemlease.Base.Int.{pos, exceeds}
use idemlease.Base.Decimal.{to_int64}
use idemlease.Base.Text.{codes, to_upper}
use idemlease.Core.Store.{Result, ok, Store, Runtime}
use idemlease.Core.Lease.{
  Options, effective, outcome, proceed, replay, Outcome, persist, begin, finish,
}
use idemlease.Http.Key.{key, key_from_header, store_key}
use idemlease.Http.Header.{Header, values, elem}
use idemlease.Http.Stored.{StoredResponse, marshal_binary}
use idemlease.Http.Stored.RoundTrip.{IsStorable, unmarshal-marshal}
use idemlease.Http.Recorder.{Recorder, Writer, status_of, stored_response, finalize}
use idemlease.Http.Capture.{new_capture}
use idemlease.Http.Fingerprint.{preimage}
use idemlease.Http.Errors.{corrupt_stored_response}
use idemlease.Http.RequestBody.{max_int64, stream, whole, read_body}
use idemlease.Http.Config.{Config}
use idemlease.Http.Replay.{write_stored}
use idemlease.Http.Exchange.{
  note, replay_refused, Request, Reservation, Script, Handler, handled, Exchange, returned, Running,
  running_ops,
}
use idemlease.Http.Middleware.{
  max_stored_response_overhead, replay_limit, reject, storable, payload_of, stored_or_empty,
  on_decoded, write_replay, report, warn_all, conclude, after_handler, run_handler, on_outcome,
  on_begun, guarded, on_body, on_key, serve, scope_of, options, valid,
}

-- A length within the limits of a replay: the response limit, with the allowance, which must not wrap.
pub record IsShort (cfg : Config) (n : ℕ) : Type 0 where
  pub limit : ℕ
  pub limit_is : cfg.max_response_body ≡ pos limit
  pub no_wrap : limit + max_stored_response_overhead < 2 ^ 63
  pub within : n ≤ limit + max_stored_response_overhead

IsShort-fits :
    (cfg : Config) (n : ℕ) → IsShort cfg n → exceeds n (replay_limit cfg.max_response_body) ≡ false
unfolding replay_limit to_int64
IsShort-fits cfg n h =
    let no_wrap = h.no_wrap in
    let within = h.within in
    let same : (h.limit + max_stored_response_overhead) % 2 ^ 64
        ≡ h.limit + max_stored_response_overhead =
      omega arith in
    let low : ltb (h.limit + max_stored_response_overhead) (2 ^ 63) ≡ true = ground arith in
    let fits : ltb (h.limit + max_stored_response_overhead) n ≡ false = ground arith in
    rw (h.limit_is, same, low, fits) refl

module _ {W : Type 0} (s : Store W) (rt : Runtime W) (sha256 : Bytes → Bytes) (cfg : Config)
    (next : Handler W) where
  -- The request is subject to idempotency, with this key and this body.
  pub record IsGuarded (r : Request) (k body : Bytes) : Type 0 where
    pub method_guarded : elem (to_upper r.method) cfg.methods ≡ true
    pub parsed : key_from_header (values (codes "Idempotency-Key") r.header) ≡ key k
    pub accepted : valid s rt sha256 cfg next k ≡ true
    pub read : read_body r.body cfg.max_request_body ≡ whole body

  -- The request that the handler gets, its key in the store, and its fingerprint.
  abbrev pub buffered : Request → Bytes → Request
  buffered r body = record r { body = stream body none }

  abbrev pub full_key : Request → Bytes → Bytes → Bytes
  full_key r k body = store_key (scope_of s rt sha256 cfg next (buffered r body)) k

  abbrev pub print_of : Request → Bytes → Bytes
  print_of r body = sha256 (preimage r.method r.path r.raw_query body)

  abbrev pub limits : Options
  limits = options s rt sha256 cfg next

  -- What `Begin` is called with for the request.
  abbrev pub begin_for : Request → Bytes → Bytes → W → Result Outcome × W
  begin_for r k body w = begin s rt (full_key r k body) (print_of r body) limits w

  pub serve-guarded :
      (r : Request) (k body : Bytes) (x : Exchange W)
      → IsGuarded r k body
      → let (res, w) = begin_for r k body x.world in
        serve s rt sha256 cfg next r x
        ≡ on_begun s rt sha256 cfg next
            (buffered r body)
            (full_key r k body)
            limits
            res
            (record x { world = w })
  unfolding serve on_key on_body guarded
  serve-guarded r k body x g = rw (g.method_guarded, g.parsed, g.accepted, g.read)

  -- The writer of a replay: the stored headers, marked as replayed if configured, the stored status
  -- and body.
  abbrev pub replayed_to : StoredResponse → Writer → Writer
  replayed_to sr w = write_stored sr (record w {
    header =
        if cfg.replayed_header
        then insert (codes "Idempotency-Replayed") (codes "true" ∷ []) w.header
        else w.header;
  })

  -- When `Begin` answers a guarded request with a stored payload that `MarshalBinary` wrote, within
  -- the limit, the handler does not run: the client gets the stored status, body and headers, and
  -- nothing is logged.
  pub serve_replay :
      (r : Request) (k body : Bytes) (x : Exchange W) (sr : StoredResponse)
      → IsGuarded r k body
      → IsStorable sr
      → IsShort cfg (length (marshal_binary sr))
      → let (res, w) = begin_for r k body x.world in
        res ≡ ok (record (outcome replay) { payload = marshal_binary sr })
        → (h : Header) × (serve s rt sha256 cfg next r x ≡ (
          returned,
          record {
            world = w;
            writer =
                replayed_to
                  (record { status_code = sr.status_code; header = h; body = sr.body })
                  x.writer;
            events = x.events;
          },
        ))
          × ((n : Bytes) → values n h ≡ values n sr.header)
  unfolding on_begun on_outcome write_replay on_decoded
  serve_replay r k body x sr g storable_sr short replays =
      let (h, read_back, same) = unmarshal-marshal sr storable_sr in
      let fits = IsShort-fits cfg (length (marshal_binary sr)) short in
      (h, rw (serve-guarded r k body x g, replays, fits, read_back), same)

  -- Where the response limit is the largest int64, its sum with the allowance wraps, and the replay of
  -- any stored payload is refused with 500 as a corrupt stored response.
  pub write_replay_wraps :
      (r : Request) (payload : Bytes) (x : Exchange W)
      → cfg.max_response_body ≡ pos max_int64
      → write_replay s rt sha256 cfg next r payload x
        ≡ reject s rt sha256 cfg next r 500 corrupt_stored_response (note replay_refused x)
  unfolding write_replay replay_limit to_int64
  write_replay_wraps r payload x most = rw most refl

  -- The handler's run for a request that proceeds with a token.
  abbrev pub reservation_for : Request → Bytes → Bytes → Bytes → Option Reservation
  reservation_for r k body token =
      some (record { key = full_key r k body; token = token; options = effective limits })

  abbrev pub script_for : Request → Bytes → Bytes → Bytes → Script W
  script_for r k body token = next (reservation_for r k body token) (buffered r body)

  abbrev pub run_for : Request → Bytes → Bytes → Bytes → W → Writer → Running W
  run_for r k body token w x = running_ops (script_for r k body token).ops (record {
    world = w;
    capture = new_capture cfg.max_response_body cfg.store_headers x;
    error = none;
    finished = false;
  })

  storable-some :
      (rec : Recorder) (sr : StoredResponse)
      → stored_response rec ≡ some sr
      → (storable rec persist ≡ (persist, [])) × (payload_of persist rec ≡ marshal_binary sr)
  unfolding storable payload_of stored_or_empty stored_response
  storable-some rec sr e = elim (Bool-cases (rec.overflowed || rec.abandoned)) [
    | inl void ↦ absurd (none_some (rw void at e))
    | inr open_capture ↦ (ground arith, rw e)
  ]
    where
      none_some : none ≡ some sr → ⊥
      none_some h = cc

  -- When a guarded request proceeds, its handler returns without having finished the record itself,
  -- the policy says Persist and the capture is usable, the handler runs once and the middleware
  -- hands the serialized response to `Finish`; if that succeeds, nothing is logged.
  pub serve_persist :
      (r : Request) (k body token : Bytes) (x : Exchange W) (sr : StoredResponse)
      → IsGuarded r k body
      → let (res, w) = begin_for r k body x.world in
        let run = run_for r k body token w x.writer in
        let rec = (finalize run.capture).rec in
        let (lost, done) =
          finish s (full_key r k body) token persist (marshal_binary sr) limits run.world in
        res ≡ ok (record (outcome proceed) { token = token })
        → (script_for r k body token).panics ≡ none
        → run.finished ≡ false
        → stored_response rec ≡ some sr
        → cfg.policy (status_of rec) run.error ≡ persist
        → lost ≡ ok false
        → serve s rt sha256 cfg next r x ≡ (
          returned,
          record {
            world = done;
            writer = (finalize run.capture).writer;
            events = handled (reservation_for r k body token) (buffered r body) ∷ x.events;
          },
        )
  unfolding on_begun on_outcome run_handler after_handler conclude warn_all report
  serve_persist r k body token x sr g proceeds calm open_record captured keeps committed =
      let w = (begin_for r k body x.world).1 in
      let rec = (finalize (run_for r k body token w x.writer).capture).rec in
      let (stored_ok, payload_ok) = storable-some rec sr captured in
      rw (
        serve-guarded r k body x g,
        proceeds,
        calm,
        open_record,
        keeps,
        stored_ok,
        payload_ok,
        committed,
      )
