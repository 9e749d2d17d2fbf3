-- ===== src/Lib.antt =====
-- The residue logging server (src/ of the repository): clients connect to it, prove who they are and
-- send log requests, which it checks, queues and hands to its loggers.
--
-- The parts, and where they are modelled:
-- - Utils: `Utils::bigAdd` (src/utils/utils.cc), the sum of two decimal strings, on which the byte
--   counters of the registry rest; the tests on strings (src/utils/utils.h); Utils/Tar, the writer of
--   archives (src/utils/tar.cc), with a reader of the format to compare it with; Utils/Templates,
--   which fills names that a configuration gives with `%` words (src/utils/utils.cc).
-- - Core: `Client`, `Registry`, `Configuration`, `JsonDoc`, `Request` and `RequestHandler` (src/core).
--   Core/Registry has one function per call of the registry; Core/RequestHandler has
--   `decryptRequest`, and Core/RequestHandler/Handle the template `handle`, over the class of requests
--   that it fills.
--   Core/Configuration has what the server reads of its configuration, with the loading of the black
--   list, of the managed loggers and clients and of rotation frequencies below it, and Core/Configuration/Settings
--   the settings of `loadFromInput`; Core/Printer is `JsonDoc::dumpStr`.
-- - Crypto: the wrappers of src/crypto around the cryptographic libraries, which are a parameter.
-- - Connect: `ConnectionRequest` and `ConnectionRequestHandler` (src/connect). Connect/Operations has
--   CONNECT, ACKNOWLEDGE and TOUCH, Connect/Handler the checks before them. An operation takes the
--   registry and the session and returns both with what goes out on the session.
-- - Logging: `LoggingQueue`, `LogRequest`, `ClientQueueProcessor` and `LogRequestHandler`
--   (src/logging). Logging/Processor decides on a request, Logging/QueuePass is one pass over a queue,
--   Logging/LogRequestHandler the routing of requests to queues. Logging/Dispatcher is
--   `ResidueLogDispatcher`, which writes lines to files and keeps those that could not be written.
-- - Tasks: `Task`, `ClientIntegrityTask` and `LogRotator` (src/tasks). Tasks/RoundOff says when a
--   rotation runs, Tasks/RotateTarget where the files go, and Tasks/LogRotator what happens to them.
-- - Admin: `AdminRequest` and `AdminRequestHandler` (src/admin), up to the command that runs.
-- - Cli: `CommandHandler` and the parameters of a `Command` (src/cli), up to the command that runs.
-- - Net: `Url` (src/net/url.cc).
-- - Examples: concrete runs.
--
-- How they interact: a raw packet goes through `RequestHandler::handle` to a connection request or a
-- log request. Connection requests change the clients of the registry; log requests read them, twice:
-- once when the handler chooses a queue, and once when the queue's processor works on them. The
-- clean-up of dead clients runs beside the queues, which hold it off by pausing their clients. What
-- the loggers take goes through the dispatcher to their files, which a rotation moves away, empties
-- and packs into one archive with the names from the templates.
--
-- Conventions. Text is a list of bytes; numbers are natural numbers, cut to their width where the
-- code narrows them. A pointer to a client is the client's id, looked up in the registry where the
-- code follows it. Hash maps are association lists. A thread that pushes to a queue is a sequence of
-- events between the steps of the worker. Exceptions of libraries are `none`. The clock of a call and
-- its random values come in a record. The only bound that the code itself sets on a loop, a hundred
-- attempts at a random id, is counted down as it is there; the fuel of `to_string` is the number
-- itself and one more, which is enough since each digit divides it by ten. The filler behind a file in
-- an archive has less than 512 bytes, which is the fuel of its loop; each round of a template moves on
-- in the text or ends, so that its length and one more is enough; `replaceAll` counts its rounds. The
-- disk of a rotation is a function from paths to contents. What the file system answers to a call, that
-- a file opens or a move succeeds, is a field of a record that comes with the call.
-- A stream of the dispatcher has what is in its file and what waits in it for a flush. The loop of a
-- task is a sequence of wakes, with the calls by hand as events between them; the test and the setting
-- of its mark are one step, and no two calls of the registry overlap.
--
-- Not modelled: sockets and the text on the wire, the JSON parser and the cryptographic libraries
-- (parameters), the format of a log line, the permissions of log files, writes to the stream of an
-- archive that fail, the single commands, and the extensions, of which only what they answer appears.
pub mod Prelude
pub mod Utils
pub mod Core
pub mod Logging
pub mod Crypto
pub mod Connect
pub mod Tasks
pub mod Admin
pub mod Cli
pub mod Net
pub mod Examples
