-- ===== src/Lib.antt =====
-- Telegraph Center: uploaded voice Recordings are transcribed, routed to a Sink by their tags, and
-- delivered. SQLite is the queue between the parts: the upload creates a Recording, the workers
-- claim it, record attempts and move its status along, the Operator intervenes, and a startup pass
-- takes up what a crash left behind. Every part acts on the others only through the tables, so the
-- development models the tables, each operation on them, and any interleaving of the operations.
--
-- Domain          src/domain.rs: Status and DeliveryStatus are the enums with their stored texts
--                 and the transition table (`can_transition_to`), Tags the normalization and
--                 validation of tags, Entities the records.
-- Retry           src/workers/retry.rs: `backoff`, the retry windows and the deadlines.
-- Storage         src/storage/sqlite.rs, src/storage/mod.rs and migrations/*.sql. Rows has the
--                 tables as lists of rows (`Db`) and the row conversions, Tx the transactions,
--                 Statements the free functions on a transaction (`guarded_transition` and the
--                 rest). ReadModels has the queries of the monitor. Recordings, Transcription,
--                 Routing, Deliveries, Manual, Recovery and Operators have the methods of
--                 `SqliteStore` of the same names. View, Acts, Frames, DeliveryFrames, IdFrames,
--                 Transition, Guarded, Moves, Interventions, Starts, Outcomes, Claim, Creation,
--                 Listing and Newest are about one operation; Steps has the histories,
--                 and Life, Agreement and Exclusive are about these.
-- Config          src/config.rs: the types and the validation of the raw configuration.
-- Wav             src/wav.rs: the header parser over a list of bytes. Its fuel is the length of the
--                 slice, which is enough since each turn of the loop passes at least eight bytes.
-- Monitor         src/monitor/session.rs, src/monitor/throttle.rs and src/monitor/auth.rs: who may
--                 use the monitor. The hash of a token and the check of a password are arguments.
--                 Csrf and Cookies are the files of these names, Templates the views of
--                 src/monitor/templates.rs, Handlers, Actions and Login the handlers of
--                 src/monitor/handlers.rs. Permission and Lockout are about requests.
-- Rules           src/routing.rs: the router over the ordered rules.
-- Blob            src/blob.rs: the paths of the audio blobs; Files has the moves and removals over a
--                 `FileSystem`, whose laws (`IsLawful`) are what the documentation of `tokio::fs`
--                 says of the calls used; `IsRemovable` is about the removals alone. Startup is
--                 `BlobStore::new`, and Swept is about the files that it removes.
-- Http            src/http/error.rs: the errors of the Client API. Upload has src/http/api.rs:
--                 Fields is the loop over the multipart fields, Handler the handler of
--                 POST /api/recordings with `ingest`. Acts, Budget, Bytes and Traces are about its
--                 computations; Refused, Stored and Again about a whole upload,
--                 Dangling about the end of one.
-- Soniox          src/soniox/error.rs; Render, Client and Adapter are src/soniox/render.rs,
--                 src/soniox/client.rs and src/soniox/mod.rs. Cleanup is about the calls made.
-- Webhook         src/delivery/*.rs: the Sinks, the payload, the request and the response.
-- Workers         src/workers/*.rs: the ticks of the three workers over the repository's
--                 operations; Loop is `run_worker_loop`. Due, Settle and
--                 Settled are about which retry is taken, when a failure is final and how an
--                 attempt ends.
-- Base            what these share: lists, tests, integers, and tables of rows with their queries.
-- Tests           the results at concrete inputs.
--
-- A `Tx` is a run of statements on one connection: it returns a result and a new database, or
-- fails. An `Op` is a method as its caller sees it: where its transaction fails the database is as
-- it was before. A table is a list of rows in the order of insertion; an INSERT fails where the
-- schema has a primary key, a unique constraint or a foreign key that it breaks.
--
-- A step of a history is a call of any operation that the service makes to change the tables of the
-- Recordings, Transcripts, attempts and Deliveries, or a restart. `insert_transcription_attempt`
-- and `insert_delivery_attempt`, which the service never calls, are modelled and are no steps;
-- those on sessions, login failures and audit events change other tables only.
--
-- Instants are natural numbers, nanoseconds from the earliest instant of the crate `time`, so every
-- sum of an instant and a duration stays exact; the source's overflow beyond the year 9999 is not
-- modelled. A text column of a date is compared as SQL compares the texts, by a parameter
-- `text_before`, since the texts are written by the crate `time`. `sink_details` is the JSON text
-- that `serde_json` writes for the audit event of a manual routing. Attempt numbers are natural
-- numbers, as they count from one.
--
-- An integration that a worker awaits is an argument: a function of the request and the database to
-- its reply and the database that the rest of the service leaves meanwhile. The readings of the
-- clock and the generated ids are arguments of the ticks and of the handlers. Where a handler
-- awaits, an argument tells what the rest of the service does to the database meanwhile.
--
-- A multipart body is the list of its fields with their chunks of bytes, and a flag that tells
-- whether it ends well; the same holds of the chunks of a webhook's response. The Soniox provider
-- answers by the calls made before, so that it may change its mind from one poll to the next. The
-- poll loop is bounded by `max_polls`, as in the source. The worker loop runs over a list of turns,
-- each with what the shutdown flag says, how the waiting ends and what happens between two ticks, so
-- that a run is as long as its list.
--
-- A statement on the database fails only as the schema or the operation has it; a failure of the
-- connection is modelled at one place, the reading that follows the committed INSERT of
-- `create_recording`.
--
-- Not modelled: the connection pool and the migrations (sqlx), other failures of a connection, the
-- routers, the multipart and HTTP parsing (axum, multer), the sending of requests (reqwest), the
-- JSON, TOML, RFC3339 and UTF-8 codecs, the HTML rendering (askama), the cryptography, all of which
-- third-party crates do; and the wiring of src/runtime.rs and src/main.rs with its sockets and
-- signals.
pub mod Base
pub mod Domain
pub mod Http
pub mod Soniox
pub mod Webhook
pub mod Retry
pub mod Storage
pub mod Config
pub mod Rules
pub mod Monitor
pub mod Wav
pub mod Blob
pub mod Workers
pub mod Tests
