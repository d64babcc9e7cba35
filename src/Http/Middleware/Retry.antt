-- ===== src/Http/Middleware/Retry.antt =====
-- A request and its retry through the middleware, over a lawful store.
use idemlease.Base.{◌<◌, ◌≡◌, refl, Bytes, false, none, some, List, ◌∷◌, All, length}
use idemlease.Core.Time.{Time, add}
use idemlease.Core.Store.{ok, Store, Runtime}
use idemlease.Core.Spec.{Records, live}
use idemlease.Core.Contract.{IsLawful}
use idemlease.Core.Lease.{lease_ttl, record_ttl, persist, finish, hex_encode}
use idemlease.Core.Lease.Answers.{begin_free}
use idemlease.Core.Lease.Exclusive.{Call, Spares, run}
use idemlease.Core.Lease.Cycle.{persisted_is_replayed}
use idemlease.Http.Header.{Header, values}
use idemlease.Http.Stored.{StoredResponse, marshal_binary}
use idemlease.Http.Stored.RoundTrip.{IsStorable}
use idemlease.Http.Recorder.{Writer, finalize, stored_response, status_of}
use idemlease.Http.Config.{Config}
use idemlease.Http.Exchange.{Request, Handler, Event, handled, Exchange, returned}
use idemlease.Http.Middleware.{serve}
use idemlease.Http.Middleware.Replays.{
  IsGuarded, IsShort, begin_for, buffered, full_key, print_of, limits, run_for, script_for,
  reservation_for, replayed_to, serve_replay, serve_persist,
}

module _ {W : Type 0} (clock : W → Time) (contents : W → Records) (s : Store W) (rt : Runtime W)
    (law : IsLawful clock contents s rt) (sha256 : Bytes → Bytes) (cfg : Config)
    (next : Handler W) where
  -- Over a lawful store, and with its tokens drawn: a guarded request whose key is free is handled, with a handler that neither panics nor settles the
  -- record itself and, besides writing, lets pass only calls of other executions; its response can be
  -- stored, the policy keeps it, and it ends within the lease limit. Then the first exchange ends with
  -- the handler run once and nothing logged, and the same request again, answered before the record
  -- limit has passed, gets the same status, body and stored headers with the handler not run.
  pub retry_is_replayed :
      (r : Request) (k body drawn : Bytes) (x : Exchange W) (sr : StoredResponse)
      (calls : List Call)
      → IsGuarded s rt sha256 cfg next r k body
      → (rt.rand x.world).0 ≡ ok drawn
      → live (clock x.world) (contents x.world (full_key s rt sha256 cfg next r k body)) ≡ none
      → let key = full_key s rt sha256 cfg next r k body in
        let token = hex_encode drawn in
        let o = limits s rt sha256 cfg next in
        let begun = (begin_for s rt sha256 cfg next r k body x.world).1 in
        let handling = run_for s rt sha256 cfg next r k body token begun x.writer in
        let rec = (finalize handling.capture).rec in
        let done = (finish s key token persist (marshal_binary sr) o handling.world).1 in
        handling.world ≡ run s rt calls begun
        → All (Spares key token) calls
        → (script_for s rt sha256 cfg next r k body token).panics ≡ none
        → handling.finished ≡ false
        → stored_response rec ≡ some sr
        → cfg.policy (status_of rec) handling.error ≡ persist
        → IsStorable sr
        → IsShort cfg (length (marshal_binary sr))
        → clock done < add (clock x.world) (lease_ttl o)
        → (w2 : Writer) (es : List Event) (drawn' : Bytes) → (rt.rand done).0 ≡ ok drawn'
        → let after = (begin_for s rt sha256 cfg next r k body done).1 in
          clock after < add (clock done) (record_ttl o)
          → (serve s rt sha256 cfg next r x ≡ (
            returned,
            record {
              world = done;
              writer = (finalize handling.capture).writer;
              events =
                  handled
                    (reservation_for s rt sha256 cfg next r k body token)
                    (buffered s rt sha256 cfg next r body)
                  ∷ x.events;
            },
          ))
            × ((h : Header) × (serve s rt sha256 cfg next r
                    (record { world = done; writer = w2; events = es })
                  ≡ (
                    returned,
                    record {
                      world = after;
                      writer =
                          replayed_to s rt sha256 cfg next
                            (record { status_code = sr.status_code; header = h; body = sr.body })
                            w2;
                      events = es;
                    },
                  ))
                × ((n : Bytes) → values n h ≡ values n sr.header))
  retry_is_replayed r k body drawn x sr calls g rand free others spared calm open_record captured
        keeps storable_sr short early w2 es drawn' rand' late =
      let key = full_key s rt sha256 cfg next r k body in
      let print = print_of s rt sha256 cfg next r body in
      let o = limits s rt sha256 cfg next in
      let (_, _, _, proceeds, _) =
        begin_free clock contents s rt law key print o x.world drawn rand free in
      let (kept, same, _) =
        persisted_is_replayed clock contents s rt law key print o x.world drawn rand free calls
          spared (marshal_binary sr) o (rw (← others) early) print drawn' (rw (← others) rand')
          (rw (← others) late) in
      (
        serve_persist s rt sha256 cfg next r k body (hex_encode drawn) x sr g proceeds calm
            open_record captured keeps (rw others kept),
        serve_replay s rt sha256 cfg next r k body (record { world = _; writer = w2; events = es })
            sr g storable_sr short (rw others (same refl)),
      )
