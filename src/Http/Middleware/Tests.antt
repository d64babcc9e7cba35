-- ===== src/Http/Middleware/Tests.antt =====
-- Requests through the middleware, over the in-memory store.
use idemlease.Base.{◌+◌, ◌≤◌, ◌≡◌, refl, Bytes, bytes_eq, none, [], ◌∷◌, arith, length}
use idemlease.Base.Dict.{lookup, insert}
use idemlease.Base.Varint.{uvarint_bytes}
use idemlease.Base.Text.{codes, to_upper, canonical, all_token, recase}
use idemlease.Core.Record.{completed, Record, expired}
use idemlease.Core.Store.{ok, is}
use idemlease.Core.Lease.{
  lease_ttl, record_ttl, reservation, persist, begin, finish, new_token, begin_loop, attempt, react,
  examine, answer, hex_encode,
}
use idemlease.Memstore.{World, new, now, rand, reserve, complete, store, runtime}
use idemlease.Http.Header.{Header, values, names, elem}
use idemlease.Http.Key.{has_control, parse_key, key_from_header, store_key}
use idemlease.Http.Stored.{sort_strings, header_bytes, string_bytes, StoredResponse, marshal_binary}
use idemlease.Http.Stored.RoundTrip.{IsStorable}
use idemlease.Http.Recorder.{
  snapshot, allowlist, is_excluded, Sent, send, stored_response, finalize, status_of, write_header,
  write, write_body, record_status, record_body, header_or_empty, new_recorder,
}
use idemlease.Http.Capture.{step, write_header_op, write_op}
use idemlease.Http.Fingerprint.{preimage}
use idemlease.Http.Policy.{default_decide}
use idemlease.Base.Int.{pos}
use idemlease.Http.Errors.{corrupt_stored_response}
use idemlease.Http.Exchange.{note, replay_refused}
use idemlease.Http.RequestBody.{max_int64, stream, read_body, read_limit}
use idemlease.Http.Config.{Config, ErrorWriter, default_config}
use idemlease.Http.Exchange.{
  Request, Handler, on_writer, handled, Exchange, returned, running_ops, running_op,
}
use idemlease.Http.Middleware.{write_replay, reject, serve}
use idemlease.Http.Middleware.Panics.{serve_panic}
use idemlease.Base.{false, true, some}
use idemlease.Core.Lease.{discard}
use idemlease.Memstore.{release}
use idemlease.Http.Exchange.{panicked}
use idemlease.Base.Dict.{erase}
use idemlease.Http.Middleware.Rejections.{AreRejections, serve-AreRejections}
use idemlease.Http.Middleware.Runs.{runs, serve-runs_once}
use idemlease.Http.Middleware.Replays.{
  IsGuarded, IsShort, begin_for, replayed_to, run_for, reservation_for, buffered, limits,
  serve_replay, write_replay_wraps, serve_persist,
}

abbrev pub status_only : ErrorWriter
status_only r status e w = send (Sent.wrote_header status w.header) w

-- A stand-in for the hash that keeps the first byte.
abbrev pub first_byte : Bytes → Bytes
first_byte [] = []
first_byte (b ∷ bs) = b ∷ []

abbrev pub cfg : Config
cfg = default_config status_only

abbrev pub creating : Handler World
creating rsv r = record {
  ops = on_writer (write_header_op 201) ∷ on_writer (write_op (codes "ok")) ∷ [];
  panics = none;
}

abbrev pub post : Request
post = record {
  method = codes "POST";
  path = codes "/orders";
  raw_query = [];
  header = (codes "Idempotency-Key", codes "k1" ∷ []) ∷ [];
  body = stream (codes "{}") none;
}

abbrev pub created : StoredResponse
created = record { status_code = 201; header = []; body = codes "ok" }

abbrev pub empty : World
empty = new 1000 (1 ∷ 1 ∷ []) (ok (171 ∷ []) ∷ [])

abbrev saved : Record
saved = record (reservation (codes "k1") (b'P' ∷ []) [] 1100) {
  state = completed;
  record_expires_at = 2000;
  payload = marshal_binary created;
}

abbrev pub first : Exchange World
first = record { world = empty; writer = record { header = []; sent = [] }; events = [] }

abbrev retry : Exchange World
retry = record first { world = record empty { recs = (codes "k1", saved) ∷ [] } }

pub post-IsGuarded : IsGuarded store runtime first_byte cfg creating post (codes "k1") (codes "{}")
unfolding elem to_upper bytes_eq values lookup key_from_header parse_key read_body read_limit
    has_control
post-IsGuarded = record { method_guarded = refl; parsed = refl; accepted = refl; read = refl }

pub created-IsStorable : IsStorable created
unfolding names
created-IsStorable = record {
  status_fits = ground arith;
  body_fits = ground arith;
  distinct = tt;
  few_names = ground arith;
  entries_fit = tt;
}

pub created-IsShort : IsShort cfg (length (marshal_binary created))
unfolding marshal_binary sort_strings names header_bytes string_bytes uvarint_bytes
created-IsShort = record {
  limit = 1048576;
  limit_is = refl;
  no_wrap = ground arith;
  within = ground arith;
}

none_before : AreRejections []
unfolding AreRejections
none_before = tt

-- The key is leased by another request.
abbrev busy : Exchange World
busy = record first {
  world = record empty { recs = (codes "k1", reservation (codes "k1") [] [] 1100) ∷ [] };
}

serve-AreRejections_example :
    AreRejections (serve store runtime first_byte cfg creating post busy).1.events
serve-AreRejections_example =
    serve-AreRejections store runtime first_byte cfg creating post busy none_before

serve-runs_once_example :
    runs (serve store runtime first_byte cfg creating post first).1.events ≤ runs first.events + 1
serve-runs_once_example = serve-runs_once store runtime first_byte cfg creating post first

serve_replay_example :
    let (res, w) =
      begin_for store runtime first_byte cfg creating post (codes "k1") (codes "{}") retry.world in
    (h : Header) × (serve store runtime first_byte cfg creating post retry ≡ (
      returned,
      record {
        world = w;
        writer =
            replayed_to store runtime first_byte cfg creating
              (record { status_code = 201; header = h; body = codes "ok" })
              retry.writer;
        events = [];
      },
    ))
    × ((n : Bytes) → values n h ≡ values n [])
unfolding rand now reserve lookup begin new_token begin_loop attempt react examine answer expired
    bytes_eq is lease_ttl preimage to_upper store_key
serve_replay_example =
    serve_replay store runtime first_byte cfg creating post (codes "k1") (codes "{}") retry created
      post-IsGuarded created-IsStorable created-IsShort refl

-- The limit with which a caller would ask for none.
abbrev unlimited : Config
unlimited = record cfg { max_response_body = pos max_int64 }

write_replay_wraps_example :
    write_replay store runtime first_byte unlimited creating post (marshal_binary created) first
    ≡ reject store runtime first_byte unlimited creating post 500 corrupt_stored_response
        (note replay_refused first)
write_replay_wraps_example =
    write_replay_wraps store runtime first_byte unlimited creating post (marshal_binary created)
      first refl

serve_persist_example :
    let token = hex_encode (171 ∷ []) in
    let (res, w) =
      begin_for store runtime first_byte cfg creating post (codes "k1") (codes "{}") empty in
    let run =
      run_for store runtime first_byte cfg creating post
        (codes "k1")
        (codes "{}")
        token
        w
        first.writer in
    let (lost, done) =
      finish store
        (codes "k1")
        token
        persist
        (marshal_binary created)
        (limits store runtime first_byte cfg creating)
        run.world in
    serve store runtime first_byte cfg creating post first ≡ (
      returned,
      record {
        world = done;
        writer = (finalize run.capture).writer;
        events =
            handled
              (reservation_for store runtime first_byte cfg creating post
                (codes "k1")
                (codes "{}")
                token)
              (buffered store runtime first_byte cfg creating post (codes "{}"))
            ∷ [];
      },
    )
unfolding rand now reserve complete lookup insert begin new_token begin_loop attempt react finish
    expired bytes_eq is lease_ttl record_ttl store_key preimage to_upper running_ops running_op step
    finalize stored_response write_header write write_body record_status record_body status_of
    header_or_empty new_recorder hex_encode default_decide snapshot allowlist is_excluded elem
    canonical all_token recase values
serve_persist_example =
    serve_persist store runtime first_byte cfg creating post (codes "k1") (codes "{}")
      (hex_encode (171 ∷ [])) first created post-IsGuarded refl refl refl refl refl refl

-- It panics after it has written.
abbrev crashing : Handler World
crashing rsv r = record { ops = on_writer (write_op (codes "o")) ∷ []; panics = some 7 }

any-IsGuarded :
    (h : Handler World) → IsGuarded store runtime first_byte cfg h post (codes "k1") (codes "{}")
unfolding elem to_upper bytes_eq values lookup key_from_header parse_key read_body read_limit
    has_control
any-IsGuarded h = record { method_guarded = refl; parsed = refl; accepted = refl; read = refl }

serve_panic_example :
    let token = hex_encode (171 ∷ []) in
    let (res, w) =
      begin_for store runtime first_byte cfg crashing post (codes "k1") (codes "{}") empty in
    let run =
      run_for store runtime first_byte cfg crashing post
        (codes "k1")
        (codes "{}")
        token
        w
        first.writer in
    let (lost, w2) =
      finish store
        (codes "k1")
        token
        discard
        []
        (limits store runtime first_byte cfg crashing)
        run.world in
    let events =
      handled
        (reservation_for store runtime first_byte cfg crashing post (codes "k1") (codes "{}") token)
        (buffered store runtime first_byte cfg crashing post (codes "{}"))
      ∷ [] in
    (run.finished ≡ false
      → serve store runtime first_byte cfg crashing post first
        ≡ (panicked 7, record { world = w2; writer = run.capture.writer; events = events }))
    × (run.finished ≡ true
        → serve store runtime first_byte cfg crashing post first ≡ (
          panicked 7,
          record { world = run.world; writer = run.capture.writer; events = events },
        ))
unfolding rand now reserve release lookup insert erase begin new_token begin_loop attempt react
    finish expired bytes_eq is lease_ttl store_key preimage to_upper running_ops running_op
    hex_encode
serve_panic_example =
    serve_panic store runtime first_byte cfg crashing post (codes "k1") (codes "{}")
      (hex_encode (171 ∷ [])) first 7 false (any-IsGuarded crashing) refl refl refl
