-- ===== src/Http/Middleware/RetryTests.antt =====
-- One order placed twice, over the in-memory store.
use idemlease.Base.{◌≡◌, refl, Bytes, bytes_eq, [], ◌∷◌, arith}
use idemlease.Base.Dict.{lookup, insert}
use idemlease.Base.Text.{codes, to_upper, canonical, all_token, recase}
use idemlease.Core.Record.{expired}
use idemlease.Core.Spec.{live}
use idemlease.Core.Store.{ok, is}
use idemlease.Core.Lease.{
  lease_ttl, record_ttl, persist, begin, finish, new_token, begin_loop, attempt, react, examine,
  answer, hex_encode,
}
use idemlease.Core.Lease.Exclusive.{run}
use idemlease.Memstore.{World, now, rand, reserve, complete, store, runtime, contents}
use idemlease.Memstore.Lawful.{clock_of, store-IsLawful}
use idemlease.Http.Header.{Header, values, elem}
use idemlease.Http.Key.{store_key}
use idemlease.Http.Stored.{marshal_binary}
use idemlease.Http.Recorder.{
  snapshot, allowlist, is_excluded, stored_response, finalize, status_of, write_header, write,
  write_body, record_status, record_body, header_or_empty, new_recorder,
}
use idemlease.Http.Capture.{step}
use idemlease.Http.Fingerprint.{preimage}
use idemlease.Http.Policy.{default_decide}
use idemlease.Http.Exchange.{handled, Exchange, returned, running_ops, running_op}
use idemlease.Http.Middleware.{serve}
use idemlease.Http.Middleware.Replays.{
  begin_for, buffered, limits, run_for, reservation_for, replayed_to,
}
use idemlease.Http.Middleware.Retry.{retry_is_replayed}
use idemlease.Http.Middleware.Tests.{
  first_byte, cfg, creating, post, created, first, empty, post-IsGuarded, created-IsStorable,
  created-IsShort,
}

abbrev token : Bytes
token = hex_encode (171 ∷ [])

abbrev two_draws : World
two_draws = record empty { draws = ok (171 ∷ []) ∷ ok (205 ∷ []) ∷ [] }

abbrev placed : Exchange World
placed = record first { world = two_draws }

abbrev begun : World
begun = (begin_for store runtime first_byte cfg creating post (codes "k1") (codes "{}") two_draws).1

abbrev done : World
done =
    (finish store (codes "k1") token persist (marshal_binary created)
      (limits store runtime first_byte cfg creating) begun).1

retry_is_replayed_example :
    (serve store runtime first_byte cfg creating post placed ≡ (
      returned,
      record {
        world = done;
        writer =
            (finalize
              (run_for store runtime first_byte cfg creating post
                (codes "k1")
                (codes "{}")
                token
                begun
                first.writer).capture).writer;
        events =
            handled
              (reservation_for store runtime first_byte cfg creating post
                (codes "k1")
                (codes "{}")
                token)
              (buffered store runtime first_byte cfg creating post (codes "{}"))
            ∷ [];
      },
    ))
    × ((h : Header) × (serve store runtime first_byte cfg creating post
            (record first { world = done })
          ≡ (
            returned,
            record {
              world =
                  (begin_for store runtime first_byte cfg creating post
                    (codes "k1")
                    (codes "{}")
                    done).1;
              writer =
                  replayed_to store runtime first_byte cfg creating
                    (record { status_code = 201; header = h; body = codes "ok" })
                    first.writer;
              events = [];
            },
          ))
        × ((n : Bytes) → values n h ≡ values n []))
unfolding rand now reserve complete live lookup insert begin new_token begin_loop attempt react
    examine answer finish expired bytes_eq is lease_ttl record_ttl store_key preimage to_upper
    running_ops running_op step finalize stored_response write_header write write_body record_status
    record_body status_of header_or_empty new_recorder hex_encode default_decide snapshot allowlist
    is_excluded elem canonical all_token recase values run
retry_is_replayed_example =
    retry_is_replayed clock_of contents store runtime store-IsLawful first_byte cfg creating post
      (codes "k1") (codes "{}") (171 ∷ []) placed created [] post-IsGuarded refl refl refl tt refl
      refl refl refl created-IsStorable created-IsShort (omega arith) first.writer [] (205 ∷ [])
      refl (omega arith)
