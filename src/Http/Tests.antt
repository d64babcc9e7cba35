-- ===== src/Http/Tests.antt =====
-- Stored responses, captures, request bodies and fingerprints of concrete requests.
use idemlease.Base.{
  ℕ, ◌<◌, ◌≤◌, ◌≡◌, ◌⊎◌, refl, Bytes, Option, none, some, List, [], ◌∷◌, true, false, arith, length,
}
use idemlease.Base.{bytes_eq}
use idemlease.Base.Dict.{lookup, insert}
use idemlease.Base.Int.{pos}
use idemlease.Base.Text.{codes, to_upper, canonical, all_token, recase}
use idemlease.Core.Store.{Error}
use idemlease.Http.Header.{Header, values, names, elem, Distinct}
use idemlease.Http.Stored.{StoredResponse, marshal_binary, unmarshal_binary, decoded}
use idemlease.Http.Stored.RoundTrip.{IsStorable, unmarshal-marshal}
use idemlease.Http.Recorder.{
  Writer, new_recorder, is_excluded, record_status, record_body, write_header, write, write_body,
  header_or_empty, stored_response, finalize, status_of, snapshot, allowlist,
}
use idemlease.Http.Recorder.Headers.{IsReplayable}
use idemlease.Http.Capture.{
  CaptureOp, set_header, write_header_op, write_op, step, put_header, run_ops, new_capture,
}
use idemlease.Http.Capture.Replayable.{captured-IsReplayable}
use idemlease.Http.Capture.Body.{written, streams, captured_body}
use idemlease.Http.Fingerprint.{preimage, preimage_injective}
use idemlease.Http.RequestBody.{stream, whole, max_int64, read_body, read_body_wraps}

abbrev listed : List Bytes
listed = codes "location" ∷ codes "set-cookie" ∷ []

abbrev client : Writer
client = record { header = []; sent = [] }

abbrev ops : List CaptureOp
ops =
    set_header (codes "Set-Cookie") (codes "s=1" ∷ [])
    ∷ set_header (codes "Location") (codes "/a" ∷ [])
    ∷ write_header_op 103
    ∷ write_header_op 201
    ∷ write_op (codes "ok")
    ∷ set_header (codes "Location") (codes "/late" ∷ [])
    ∷ write_op (codes "!")
    ∷ []

-- What the run leaves to be stored.
abbrev created : StoredResponse
created = record {
  status_code = 201;
  header = (codes "Location", codes "/a" ∷ []) ∷ [];
  body = codes "ok!";
}

created-IsStorable : IsStorable created
unfolding names elem values lookup bytes_eq
created-IsStorable = record {
  status_fits = ground arith;
  few_names = ground arith;
  distinct = (refl, tt);
  entries_fit = ((ground arith, (ground arith, tt), ground arith), tt);
  body_fits = ground arith;
}

unmarshal-marshal_example :
    (h : Header) × (unmarshal_binary (marshal_binary created)
      ≡ decoded (record { status_code = 201; header = h; body = codes "ok!" }))
    × ((k : Bytes) → values k h ≡ values k created.header)
unmarshal-marshal_example = unmarshal-marshal created created-IsStorable

captured-IsReplayable_example :
    ((k : Bytes) → elem k (names created.header) ≡ true → IsReplayable listed k)
    × Distinct (names created.header)
unfolding stored_response finalize run_ops step put_header new_recorder allowlist snapshot values
    lookup insert bytes_eq elem is_excluded canonical all_token recase record_status record_body
    write_header write write_body status_of header_or_empty
captured-IsReplayable_example = captured-IsReplayable listed (pos 100) client ops created refl

captured_body_example :
    let stored = stored_response (finalize (run_ops ops (new_capture (pos 3) listed client))).rec in
    (streams ops ≡ false
      → length (written ops) ≤ 3
      → (sr : StoredResponse) × (stored ≡ some sr) × (sr.body ≡ written ops))
    × ((streams ops ≡ true) ⊎ (3 < length (written ops)) → stored ≡ none)
captured_body_example = captured_body 3 listed client ops

abbrev throttled : ℕ
throttled = 429

preimage_injective_example :
    (to_upper (codes "post") ≡ to_upper (codes "POST"))
    × (codes "/orders" ≡ codes "/orders")
    × (codes "a=?" ≡ codes "a=?")
    × (codes "{}" ≡ codes "{}")
unfolding to_upper preimage
preimage_injective_example =
    preimage_injective (codes "post") (codes "/orders") (codes "a=?") (codes "{}") (codes "POST")
      (codes "/orders") (codes "a=?") (codes "{}") (ground arith) (ground arith) (ground arith)
      (ground arith) (ground arith) (ground arith) refl

abbrev ended : Option Error
ended = none

-- Three bytes, of which none is read.
read_body_wraps_example : read_body (stream (codes "abc") none) (pos max_int64) ≡ whole []
read_body_wraps_example = read_body_wraps (codes "abc") none
