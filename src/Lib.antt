-- ===== src/Lib.antt =====
-- idemlease: idempotent request handling with leases, over a shared store.
--
-- The program. A client sends a request with an Idempotency-Key. `Begin` (idemlease.go) reserves the
-- key in a `Store` under a random token and a lease, or finds a record there: of a request still in
-- flight, or of a completed one whose response is to be replayed. `Finish` completes or releases the
-- reservation by a compare-and-set on the token. memstore/ is the store in memory; httpidem/ is the
-- net/http middleware that reads the key, fingerprints the request, calls `Begin`, runs the handler
-- under a capturing writer, and calls `Finish` with the serialized response; grpcidem/ does the same for
-- unary gRPC calls. redistore/ and pgstore/ are stores on a server that several processes share.
--
-- The files.
-- - Base: shared names; byte strings, lists, Go's maps (Dict), the state monad (Monad), varints
--   of encoding/binary (Varint), signed numbers (Int) and their decimal form (Decimal), ASCII text and
--   header names (Text).
-- - Core/Time, Core/Record, Core/Store: Go's time as far as it is used, record.go, store.go. Core/Spec
--   is what store.go promises, as operations on a map from keys to records at one instant;
--   Core/Contract states it as laws of a store. Core/Lease is `Begin` and `Finish`; its children
--   are about a store that keeps the laws and, in Core/Lease/Faults, about one that breaks them.
--   Core/Shared is the contract of a store on a server that several processes share: a record is there
--   until its deadline by the server's clock, and calls may fail; its children are `Begin`, `Finish` and
--   sequences of calls over such a store. Core/Node is a process with its server and network.
-- - Memstore: memstore/memstore.go; Memstore/Lawful sets it against the laws.
-- - Http/Key: httpidem/key.go. Http/Stored: httpidem/storedresponse.go. Http/Recorder and Http/Capture:
--   httpidem/recorder.go, and a handler's calls of the writer. Http/Policy: httpidem/policy.go.
--   Http/Fingerprint: httpidem/fingerprint.go. Http/Replay: `WriteStored` of httpidem/reservation.go.
--   Http/RequestBody, Http/Config, Http/Exchange, Http/Middleware: httpidem/httpidem.go.
-- - Grpc/Payload, Grpc/Key, Grpc/Call, Grpc/Intercept: grpcidem/grpcidem.go and grpcidem/policy.go; the
--   children of Grpc/Intercept are about its answers and about how often the handler runs.
-- - Redistore: the methods of redistore/redistore.go; Redistore/Scripts its Lua scripts, Redistore/Reply the
--   decoding of replies, Redistore/Server the commands of Redis and what their documentation says.
--   The other children lead to Redistore/Atomic, the laws; Redistore/Example is a key space with them.
-- - Pgstore: the methods of pgstore/pgstore.go; Pgstore/Rows and Pgstore/Sweeping its statements. The other
--   children lead to Pgstore/Atomic, the laws; Pgstore/Joining is about `CompleteTx`, Pgstore/Housekeeping
--   about `Sweep`, Pgstore/Recovery about leases whose holder has gone.
-- - Errtrail: errtrailadapter/errtrailadapter.go; Errtrail/Statuses sets its codes against the rejections of
--   the middleware (Http/Errors/Rejection, httpidem/errors.go).
-- - Modules whose names end in Tests run the definitions at concrete inputs.
--
-- How state is modelled. Stores and clocks are functions on a world `W` that they return changed; a
-- store, its clock and its random source may be anything, and time may pass in any call. A call of
-- `Begin` reads the clock and calls the store up to three times, so the laws speak of the instant at
-- which each call of the store takes effect. The calls of other goroutines and processes come before
-- or after a whole call of `Begin` or `Finish`, and so of a store's method. Time may pass within one:
-- at each reading of the clock, and between the statements of pgstore's `Reserve`, `Complete` and
-- `Release`, so that a row that blocked a claim may have expired when it is read.
-- The handler is a list of what it does, possibly ended by a panic.
-- A script of Redis and a statement of PostgreSQL run at one instant of the server's clock, which for
-- PostgreSQL reads whole microseconds; in a transaction the node's table is what the transaction
-- sees. Redis is a parameter with its documented laws; the commands of PostgreSQL are written
-- out for the statements that the source contains; which rows a LIMIT takes is a parameter. The network is a list that says, for each call,
-- whether it or its reply is lost.
--
-- Bounds. `Begin` and pgstore's `Reserve` make three attempts, as in the source. A varint has at most
-- ten groups of seven bits, enough for 64 bits; a decimal numeral of an int64 has at most 19 digits.
-- All other loops are recursion on a list or on a count. An instant is a number of nanoseconds since the zero
-- time, a duration a signed one; `Sub` and the retry delay keep Go's limits at the largest
-- duration, and the limits of `readBody` and `writeReplay` the wrap-around of int64, which stands for
-- Go's int.
--
-- Not modelled: the gin integration; how a statement of PostgreSQL waits for another's lock; contexts
-- and their cancellation; the text of log lines and of error documents; the test kits. SHA-256, the
-- error writer, protocol buffers and errtrail are parameters. Aliasing of byte slices plays no part,
-- since the code clones what it keeps.
pub mod Base
pub mod Core
pub mod Memstore
pub mod Http
pub mod Grpc
pub mod Redistore
pub mod Pgstore
pub mod Errtrail
