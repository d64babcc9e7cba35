-- ===== src/Http/RequestBody.antt =====
-- httpidem/httpidem.go: `readBody`, on a body that is absent, or a stream of bytes that ends or fails.
use idemlease.Base.{
  ℕ, ◌+◌, ◌≤◌, ◌<◌, ◌≡◌, refl, take_all, length-take, arith, Bytes, length, take, leb, ◌==◌,
  if◌then◌else◌, Option, none, some, [],
}
use idemlease.Base.Int.{ℤ, pos, negsuc, exceeds}
use idemlease.Core.Store.{Error}

pub data RequestBody : Type 0 where
  no_body : RequestBody
  stream : Bytes → Option Error → RequestBody

-- What `readBody` returns: the whole body, a prefix of one that is too large, or an error.
pub data ReadResult : Type 0 where
  whole : Bytes → ReadResult
  overflow : Bytes → ReadResult
  failed : Error → ReadResult

abbrev pub max_int64 : ℕ
max_int64 = 9223372036854775807

-- `max + 1` on int64 as the limit of `io.LimitReader`: how many bytes it lets through at most. A limit
-- of 0 or less, the wrapped one included, lets none through.
unfoldable pub read_limit : ℤ → ℕ
read_limit (pos m) = if m == max_int64 then 0 else m + 1
read_limit (negsuc m) = 0

classify : Bytes → ℤ → ReadResult
classify body max = if exceeds (length body) max then overflow body else whole body

-- `io.ReadAll` of the limited stream: the stream's own error shows only if the limit is not met first.
read_stream : Bytes → Option Error → ℤ → ReadResult
read_stream bytes none max = classify (take (read_limit max) bytes) max
read_stream bytes (some e) max =
    if leb (read_limit max) (length bytes)
    then classify (take (read_limit max) bytes) max
    else failed e

-- `readBody`
unfoldable pub read_body : RequestBody → ℤ → ReadResult
unfolding read_stream classify
read_body no_body max = whole []
read_body (stream bytes e) max = read_stream bytes e max

-- With a limit from 0 up to one below the largest int64: a body within the limit is read whole, or
-- gives the error that its stream ends in; of a larger one the first limit + 1 bytes are read, and
-- its own error is not seen.
pub read_body_lem :
    (bytes : Bytes) (e : Option Error) (m : ℕ)
    → m < max_int64
    → (length bytes ≤ m → e ≡ none → read_body (stream bytes e) (pos m) ≡ whole bytes)
      × ((x : Error)
          → length bytes ≤ m
          → e ≡ some x
          → read_body (stream bytes e) (pos m) ≡ failed x)
      × (m < length bytes → read_body (stream bytes e) (pos m) ≡ overflow (take (m + 1) bytes))
unfolding read_body read_limit
read_body_lem bytes none m h = (
  (λ fits _. ground (arith, take_all (m + 1) bytes (omega (arith, fits)))),
  (λ x fits no. absurd (cc)),
  (λ over. ground (arith, length-take (m + 1) bytes)),
)
read_body_lem bytes (some e) m h = (
  (λ fits no. absurd (cc)),
  (λ x fits same. ground arith),
  (λ over. ground (arith, length-take (m + 1) bytes)),
)

-- With the largest int64 as the limit, `max + 1` wraps, and every body is read as an empty one, with
-- neither an overflow nor an error.
pub read_body_wraps :
    (bytes : Bytes) (e : Option Error) → read_body (stream bytes e) (pos max_int64) ≡ whole []
unfolding read_body read_limit
read_body_wraps bytes none = refl
read_body_wraps bytes (some e) = ground arith
