-- ===== src/Logging/Dispatcher.antt =====
-- `ResidueLogDispatcher` (src/logging/residue-log-dispatcher.h), which writes the lines of the
-- loggers to their files and keeps those that it cannot write in the dynamic buffer.
--
-- A file name stands for the stream that is open on it. What a stream takes waits in it until it is
-- flushed or closed; a write or a flush that fails may have put anything into the file before, and
-- once failed the stream takes nothing until it is cleared or opened anew. What is put into a stream
-- piece by piece is one write. What the file system answers during one call is its `Outcome`.
pub mod Kept
pub mod Steps
pub mod NeverLost
pub mod Recovery
use residue.Core.Configuration.{Configuration, has_flag, member, residue_logger_id, value_or}
use residue.Core.Configuration.Flag
use residue.Logging.LogRequest.{LogRequest}
use residue.Prelude.Map
use residue.Prelude.Map.{Map, is_some}
use residue.Utils.BigAdd.{to_string}
use residue.Prelude.{
  ℕ, suc, ◌+◌, Bool, true, false, not, ◌&&◌, ◌||◌, Option, none, some, List, [], ◌∷◌, ◌++◌, ltb,
  ◌==◌, if◌then◌else◌, length, Text, codes, text_eq, is_empty,
}

-- `el::base::type::fstream_t`: what has come to its file, and what waits to be flushed.
pub record Stream : Type 0 where
  pub content : List Text
  pub waiting : List Text
  pub failed : Bool

abbrev pub closed : Stream
closed = record { content = []; waiting = []; failed = false }

pub record FailedLogs : Type 0 where
  pub logger : Text
  pub lines : List Text

-- What the extensions of a kind are called with, one after the other.
pub data Trigger : Type 0 where
  on_error : (logger_id filename log_line : Text) (level errno : ℕ) → Trigger
  on_log : (request : LogRequest) (logger_id log_line : Text) (written : Bool) → Trigger
  reset : Trigger

pub record Dispatcher : Type 0 where
  pub configuration : Configuration
  pub has_dispatch_error_extensions : Bool
  pub has_log_extensions : Bool
  pub streams : Map Stream
  pub dynamic_buffer : Map FailedLogs
  pub previously_failed : Bool
  pub triggered : List Trigger

-- `LogDispatchData`, with what the typed configurations of the logger have for its level.
pub record LogData : Type 0 where
  pub request : LogRequest
  pub logger_id : Text
  pub level : ℕ
  pub log_line : Text
  pub to_file : Bool
  pub filename : Text
  pub has_stream : Bool

pub record Outcome : Type 0 where
  pub file_exists : Bool
  pub path_created : Bool
  -- `fs->open` of the new file, and `createPath` before it.
  pub created : Bool
  pub written : Bool
  -- The logger is to be flushed, by its flag or its count of lines, and the flush succeeds.
  pub flush_needed : Bool
  pub flushed : Bool
  -- What a write or a flush that fails has put into the file.
  pub spilt : List Text
  -- The recovery check.
  pub recovered : Bool
  -- `fs->open` to append, and each write after it.
  pub reopened : Bool
  -- The flush by `fs->close`, and the one at the end.
  pub closes : Bool
  pub ended : Bool
  pub accepts : ℕ → Bool
  pub flushed_in : ℕ
  pub errno : ℕ

abbrev pub stream_of : Dispatcher → Text → Stream
stream_of d fn = value_or (Map.find d.streams fn) closed

abbrev pub lines_of : Option FailedLogs → List Text
lines_of none = []
lines_of (some logs) = logs.lines

abbrev pub buffered : Dispatcher → Text → List Text
buffered d fn = lines_of (Map.find d.dynamic_buffer fn)

abbrev pub with_stream : Dispatcher → Text → Stream → Dispatcher
with_stream d fn fs = record d { streams = Map.assign d.streams fn fs }

-- `fs->write`.
abbrev pub write : List Text → Bool → Text → Stream → Stream
write spilt accepted text fs =
    if fs.failed
    then fs
    else if accepted
    then record fs { waiting = fs.waiting ++ text ∷ [] }
    else record fs { content = fs.content ++ spilt; failed = true }

-- `fs->flush`.
abbrev pub flush : List Text → Bool → Stream → Stream
flush spilt flushed fs =
    if fs.failed
    then fs
    else if flushed
    then record fs { content = fs.content ++ fs.waiting; waiting = [] }
    else record { content = fs.content ++ spilt; waiting = []; failed = true }

-- `fs->close`, before the stream is opened anew.
abbrev pub close : List Text → Bool → Stream → Stream
close spilt flushed fs = record fs {
  content = fs.content ++ (if flushed then fs.waiting else spilt);
  waiting = [];
}

abbrev pub trigger : Trigger → Dispatcher → Dispatcher
trigger t d = record d { triggered = d.triggered ++ t ∷ [] }

unfoldable pub exec_log_extensions : LogData → Bool → Dispatcher → Dispatcher
exec_log_extensions log successfully_written d =
    if not d.has_log_extensions
    then d
    else trigger (on_log log.request log.logger_id log.log_line successfully_written) d

unfoldable pub exec_dispatch_error_extensions : LogData → ℕ → Dispatcher → Dispatcher
exec_dispatch_error_extensions log errno d =
    if not d.has_dispatch_error_extensions || text_eq log.logger_id residue_logger_id
    then d
    else record (trigger (on_error log.logger_id log.filename log.log_line log.level errno) d) {
      previously_failed = true;
    }

unfoldable pub reset_error_extensions : Dispatcher → Dispatcher
reset_error_extensions d =
    if not d.has_dispatch_error_extensions
    then d
    else record (trigger reset d) { previously_failed = false }

-- The line is appended unless it is there.
abbrev pub push_line : Text → FailedLogs → FailedLogs
push_line line logs =
    if member logs.lines line then logs else record logs { lines = logs.lines ++ line ∷ [] }

unfoldable pub add_to_dynamic_buffer : LogData → Dispatcher → Dispatcher
add_to_dynamic_buffer log d =
    if has_flag d.configuration Flag.enable_dynamic_buffer
      && not (text_eq log.logger_id residue_logger_id)
    then record d {
      dynamic_buffer =
          Map.modify
            (Map.insert d.dynamic_buffer log.filename
              (record { logger = log.logger_id; lines = [] }))
            log.filename (push_line log.log_line);
    }
    else d

-- The loop over the buffered lines, whose failures are only logged.
pub write_all : List Text → (ℕ → Bool) → ℕ → List Text → Stream → Stream
write_all spilt accepts i [] fs = fs
write_all spilt accepts i (line ∷ lines) fs =
    write_all spilt accepts (suc i) lines (write spilt (accepts i) line fs)

abbrev plural : ℕ → Text
plural size = if ltb 1 size then codes "s" else []

unfoldable pub header : ℕ → Text
header size =
    codes "=== [residue] ==> "
    ++ (to_string size ++ (codes " log" ++ (plural size ++ codes " from dynamic buffer ===\n")))

unfoldable pub footer : ℕ → ℕ → Text
footer size ms =
    codes "=== [residue] ==> dynamic buffer cleared ("
    ++ (to_string size
        ++ (codes " log"
            ++ (plural size ++ (codes " written in " ++ (to_string ms ++ codes " ms) ===\n")))))

-- What the flush of a buffer makes of its stream.
unfoldable pub flush_lines : Outcome → List Text → Stream → Stream
unfolding write_all header footer
flush_lines out lines fs =
    let size = length lines in
    let opened = record (close out.spilt out.closes fs) { failed = not out.reopened } in
    let headed = write out.spilt (out.accepts 0) (header size) opened in
    let done = write_all out.spilt out.accepts 1 lines headed in
    flush out.spilt out.ended
      (write out.spilt (out.accepts (suc size)) (footer size out.flushed_in) done)

pub dispatch_logs : Outcome → Text → Dispatcher → Option FailedLogs → Dispatcher
unfolding flush_lines
dispatch_logs out fn d none = d
dispatch_logs out fn d (some logs) =
    let d1 =
      if is_empty logs.lines
      then d
      else with_stream d fn (flush_lines out logs.lines (stream_of d fn)) in
    record d1 { dynamic_buffer = Map.erase d1.dynamic_buffer fn }

unfoldable pub dispatch_dynamic_buffer : Outcome → Text → Dispatcher → Dispatcher
unfolding dispatch_logs
dispatch_dynamic_buffer out fn d = dispatch_logs out fn d (Map.find d.dynamic_buffer fn)

-- `createFile`, and whether it has succeeded.
unfoldable pub create_file : Outcome → LogData → Dispatcher → Dispatcher × Bool
unfolding add_to_dynamic_buffer exec_dispatch_error_extensions
create_file out log d =
    let give_up = λ (d : Dispatcher).
      exec_dispatch_error_extensions log out.errno (add_to_dynamic_buffer log d) in
    if not out.path_created
    then (give_up d, false)
    else if not out.created
    then
        -- The stream failed to open and is cleared.
        (
          give_up (
              with_stream d log.filename
                (record (close out.spilt out.closes (stream_of d log.filename)) {
                  failed = false;
                })),
          false,
        )
    else (with_stream d log.filename closed, true)

abbrev pub recovery_check : Text
recovery_check = codes "=== [residue] ==> dynamic buffer recovery check ===\n"

-- After a write that has failed.
unfoldable pub on_write_failed : Outcome → LogData → Dispatcher → Dispatcher
unfolding add_to_dynamic_buffer exec_dispatch_error_extensions
on_write_failed out log d =
    let d1 = exec_dispatch_error_extensions log out.errno (add_to_dynamic_buffer log d) in
    if not (text_eq log.logger_id residue_logger_id) && out.recovered
    then with_stream d1 log.filename (record (stream_of d1 log.filename) {
      content = (stream_of d1 log.filename).content ++ recovery_check ∷ [];
      failed = false;
    })
    else d1

-- After one that has not.
unfoldable pub on_written : Outcome → LogData → Dispatcher → Dispatcher
unfolding dispatch_dynamic_buffer reset_error_extensions
on_written out log d =
    let d1 = dispatch_dynamic_buffer out log.filename d in
    if d1.previously_failed && not (text_eq log.logger_id residue_logger_id)
    then reset_error_extensions d1
    else d1

-- `logger->flush`, if it is needed.
abbrev pub flush_line : Outcome → Stream → Stream
flush_line out fs = if out.flush_needed then flush out.spilt out.flushed fs else fs

-- The write to a file that is there, and whether it has succeeded, which is not asked of its flush.
unfoldable pub write_line : Outcome → LogData → Dispatcher → Dispatcher × Bool
unfolding on_write_failed on_written
write_line out log d =
    let fs = write out.spilt out.written log.log_line (stream_of d log.filename) in
    let d1 = with_stream d log.filename fs in
    if fs.failed
    then (on_write_failed out log d1, false)
    else (on_written out log (with_stream d1 log.filename (flush_line out fs)), true)

-- The part of `handle` under `conf->toFile(level)`; `none` where it returns early.
abbrev pub to_the_file : Outcome → LogData → Dispatcher → Dispatcher × Option Bool
to_the_file out log d =
    if not log.to_file
    then (d, some false)
    else if not log.has_stream
    then (d, some false)
    else if out.file_exists
    then (let (d1, done) = write_line out log d in (d1, some done))
    else let (d1, there) = create_file out log d in
      if there then (let (d2, done) = write_line out log d1 in (d2, some done)) else (d1, none)

-- What is left to do where `handle` has not returned.
pub finish : LogData → Dispatcher × Option Bool → Dispatcher
unfolding exec_log_extensions
finish log (d, none) = d
finish log (d, some successfully_written) =
    if text_eq log.logger_id residue_logger_id
    then d
    else exec_log_extensions log successfully_written d

unfoldable pub handle : Outcome → LogData → Dispatcher → Dispatcher
unfolding write_line create_file finish
handle out log d = finish log (to_the_file out log d)
