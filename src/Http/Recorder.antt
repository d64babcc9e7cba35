-- ===== src/Http/Recorder.antt =====
-- httpidem/recorder.go: the capture of a response, and the writer that feeds it.
pub mod Headers
use idemlease.Base.{ℕ, ◌+◌, Bytes, ltb, leb, ◌==◌, length, Bool, true, false, ◌&&◌, ◌||◌, not}
use idemlease.Base.{if◌then◌else◌, Option, none, some, List, [], ◌∷◌, ◌++◌}
use idemlease.Base.Int.{ℤ, exceeds}
use idemlease.Base.Text.{codes, canonical}
use idemlease.Http.Header.{Header, values, elem}
use idemlease.Http.Stored.{StoredResponse}

-- `alwaysExcludedHeaders`
abbrev pub always_excluded_headers : List Bytes
always_excluded_headers =
    codes "Set-Cookie"
    ∷ codes "Authorization"
    ∷ codes "Connection"
    ∷ codes "Transfer-Encoding"
    ∷ codes "Keep-Alive"
    ∷ codes "Upgrade"
    ∷ codes "Trailer"
    ∷ codes "Te"
    ∷ codes "Proxy-Authenticate"
    ∷ codes "Proxy-Authorization"
    ∷ []

-- `_, excluded := alwaysExcludedHeaders[c]`
unfoldable pub is_excluded : Bytes → Bool
is_excluded c = elem c always_excluded_headers

-- A nil header is `none`; the allowlist is a set of names.
pub record Recorder : Type 0 where
  pub max_body : ℤ
  pub allow : List Bytes
  pub status : ℕ
  pub header : Option Header
  pub body : Bytes
  pub overflowed : Bool
  pub abandoned : Bool

-- `allow[c] = struct{}{}`
add_name : Bytes → List Bytes → List Bytes
add_name c allow = if elem c allow then allow else c ∷ allow

-- The loop of `NewRecorder`.
unfoldable pub allowlist : List Bytes → List Bytes → List Bytes
unfolding add_name
allowlist [] allow = allow
allowlist (name ∷ rest) allow =
    let c = canonical name in allowlist rest (if is_excluded c then allow else add_name c allow)

-- `NewRecorder`
unfoldable pub new_recorder : ℤ → List Bytes → Recorder
new_recorder max_body allow_headers = record {
  max_body = max_body;
  allow = allowlist allow_headers [];
  status = 0;
  header = none;
  body = [];
  overflowed = false;
  abandoned = false;
}

-- The snapshot of the allowlisted headers.
unfoldable pub snapshot : List Bytes → Header → Header
snapshot [] header = []
snapshot (name ∷ allow) header =
    let rest = snapshot allow header in
    if length (values name header) == 0 then rest else (name, values name header) ∷ rest

-- `Recorder.RecordStatus`
unfoldable pub record_status : ℕ → Header → Recorder → Recorder
record_status status header rec =
    if not (rec.status == 0) || (leb 100 status && ltb status 200)
    then rec
    else record rec { status = status; header = some (snapshot rec.allow header) }

-- `Recorder.RecordBody`
unfoldable pub record_body : Bytes → Recorder → Recorder
record_body p rec =
    if rec.overflowed || rec.abandoned
    then rec
    else if exceeds (length rec.body + length p) rec.max_body
    then record rec { overflowed = true; body = [] }
    else record rec { body = rec.body ++ p }

-- `Recorder.Abandon`
unfoldable pub abandon : Recorder → Recorder
abandon rec = record rec { abandoned = true; body = [] }

-- `Recorder.Status`
unfoldable pub status_of : Recorder → ℕ
status_of rec = if rec.status == 0 then 200 else rec.status

unfoldable pub header_or_empty : Option Header → Header
header_or_empty none = []
header_or_empty (some h) = h

-- `Recorder.StoredResponse`; `none` where Go's ok is false.
unfoldable pub stored_response : Recorder → Option StoredResponse
unfolding header_or_empty
stored_response rec =
    if rec.overflowed || rec.abandoned
    then none
    else some (record {
      status_code = status_of rec;
      header = header_or_empty rec.header;
      body = rec.body;
    })

-- What the underlying writer has been asked for, in order.
pub data Sent : Type 0 where
  wrote_header : ℕ → Header → Sent
  wrote : Bytes → Sent
  flushed hijacked : Sent

-- The underlying `http.ResponseWriter`: its header map, and the calls made of it, the latest first.
pub record Writer : Type 0 where
  pub header : Header
  pub sent : List Sent

abbrev pub send : Sent → Writer → Writer
send e w = record w { sent = e ∷ w.sent }

pub record CaptureWriter : Type 0 where
  pub writer : Writer
  pub rec : Recorder
  pub wrote_header : Bool

-- `captureWriter.WriteHeader`
unfoldable pub write_header : ℕ → CaptureWriter → CaptureWriter
write_header code cw = record {
  writer = send (Sent.wrote_header code cw.writer.header) cw.writer;
  rec = if cw.wrote_header then cw.rec else record_status code cw.writer.header cw.rec;
  wrote_header = cw.wrote_header || leb 200 code;
}

unfoldable pub write_body : Bytes → CaptureWriter → CaptureWriter
write_body p cw = record cw { rec = record_body p cw.rec; writer = send (wrote p) cw.writer }

-- `captureWriter.Write`
unfoldable pub write : Bytes → CaptureWriter → CaptureWriter
unfolding write_body
write p cw = write_body p (if cw.wrote_header then cw else write_header 200 cw)

-- `captureWriter.finalize`
unfoldable pub finalize : CaptureWriter → CaptureWriter
finalize cw =
    if cw.wrote_header
    then cw
    else record cw { rec = record_status 200 cw.writer.header cw.rec; wrote_header = true }

-- How the underlying writer's `Flush` ended.
pub data FlushResult : Type 0 where
  flush_ok flush_not_supported flush_failed : FlushResult

-- `captureWriter.flush`
unfoldable pub flush : FlushResult → CaptureWriter → CaptureWriter
flush flush_not_supported cw = record cw { writer = send flushed cw.writer }
flush _ cw = record cw { rec = abandon cw.rec; writer = send flushed cw.writer }

-- `captureWriter.Hijack`, by whether the underlying writer let it happen.
unfoldable pub hijack : Bool → CaptureWriter → CaptureWriter
hijack true cw = record cw { rec = abandon cw.rec; writer = send hijacked cw.writer }
hijack false cw = record cw { writer = send hijacked cw.writer }
