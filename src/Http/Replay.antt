-- ===== src/Http/Replay.antt =====
-- httpidem/reservation.go: `WriteStored`; httpidem/httpidem.go: `retryAfterSeconds`.
use idemlease.Base.{ℕ, ◌+◌, ◌-◌, ◌/◌, ltb, if◌then◌else◌, [], ◌∷◌}
use idemlease.Base.Dict.{insert}
use idemlease.Base.Int.{pos, negsuc}
use idemlease.Core.Time.{Duration, second, max_duration}
use idemlease.Http.Header.{Header}
use idemlease.Http.Stored.{StoredResponse}
use idemlease.Http.Recorder.{Writer, Sent, send, wrote}

-- `header[name] = values` for each entry.
unfoldable pub assign_headers : Header → Header → Header
assign_headers [] h = h
assign_headers ((name, vs) ∷ rest) h = assign_headers rest (insert name vs h)

-- `WriteStored`
unfoldable pub write_stored : StoredResponse → Writer → Writer
write_stored sr w =
    let h = assign_headers sr.header w.header in
    send (wrote sr.body) (send (Sent.wrote_header sr.status_code h) (record w { header = h }))

-- The number that `retryAfterSeconds` renders. The sum is one of int64: beyond its range it is
-- negative, and so is, or becomes 0, the quotient of a negative duration.
unfoldable pub retry_after_seconds : Duration → ℕ
retry_after_seconds (pos n) =
    let t = n + (second - 1) in
    if ltb max_duration t then 1 else if ltb (t / second) 1 then 1 else t / second
retry_after_seconds (negsuc n) = 1
