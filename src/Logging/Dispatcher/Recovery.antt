-- ===== src/Logging/Dispatcher/Recovery.antt =====
-- The call of the dispatcher (src/logging/residue-log-dispatcher.h) that finds its file writable
-- again.
use residue.Core.Configuration.{member}
use residue.Logging.Dispatcher.{
  Dispatcher, LogData, Outcome, stream_of, write, flush_line, exec_log_extensions,
  reset_error_extensions, dispatch_dynamic_buffer, on_written, write_line, to_the_file, finish,
  handle,
}
use residue.Logging.Dispatcher.Kept.{
  stored, IsReliable, content-dispatch_dynamic_buffer, content-write, content-flush_line,
}
use residue.Prelude.Map
use residue.Prelude.Map.{find-assign}
use residue.Prelude.{
  text_eq_refl, ◌≡◌, refl, Bool, true, false, not, Option, none, some, arith, Text, if_cases,
}
use residue.Logging.Dispatcher.Steps.{IsFiled, not_both, not_negated, after_flush}

IsIn : Text → Text → Dispatcher → Type 0
IsIn fn line d = member (stream_of d fn).content line ≡ true

IsIn-streams :
    (fn line : Text) (d e : Dispatcher) → e.streams ≡ d.streams → IsIn fn line d → IsIn fn line e
unfolding IsIn
IsIn-streams fn line d e same h = rw same h

streams-reset : (d : Dispatcher) → (reset_error_extensions d).streams ≡ d.streams
unfolding reset_error_extensions
streams-reset d = if_cases (λ (e : Dispatcher). e.streams ≡ d.streams) _ _ _ (λ _. refl) (λ _. refl)

streams-exec_log_extensions :
    (log : LogData) (done : Bool) (d : Dispatcher)
    → (exec_log_extensions log done d).streams ≡ d.streams
unfolding exec_log_extensions
streams-exec_log_extensions log done d =
    if_cases (λ (e : Dispatcher). e.streams ≡ d.streams) _ _ _ (λ _. refl) (λ _. refl)

flush-IsIn :
    (out : Outcome) (log : LogData) (d : Dispatcher) (line : Text)
    → IsReliable out
    → stored d log.filename line ≡ true
    → IsIn log.filename line (dispatch_dynamic_buffer out log.filename d)
unfolding IsIn
flush-IsIn out log d line reliable h =
    content-dispatch_dynamic_buffer out log.filename line d reliable h

on_written-IsIn :
    (out : Outcome) (log : LogData) (d : Dispatcher) (line : Text)
    → IsReliable out
    → stored d log.filename line ≡ true
    → IsIn log.filename line (on_written out log d)
unfolding on_written
on_written-IsIn out log d line reliable h =
    let d1 = dispatch_dynamic_buffer out log.filename d in
    let flushed = flush-IsIn out log d line reliable h in
    if_cases (IsIn log.filename line) _ _ _
      (λ _.
        IsIn-streams log.filename line d1 (reset_error_extensions d1) (streams-reset d1) flushed)
      (λ _. flushed)

-- What a file or its buffer has stays there when the line is written and flushed.
stored-after_flush :
    (out : Outcome) (log : LogData) (d : Dispatcher) (line : Text)
    → stored d log.filename line ≡ true
    → stored (after_flush out log d) log.filename line ≡ true
stored-after_flush out log d line h =
    let before = stream_of d log.filename in
    let written = write out.spilt out.written log.log_line before in
    ground (
      arith,
      content-write out.spilt out.written log.log_line line before,
      content-flush_line out line written,
      find-assign (Map.assign d.streams log.filename written) log.filename log.filename
          (flush_line out written),
      text_eq_refl log.filename,
    )

write_line-IsIn :
    (out : Outcome) (log : LogData) (d : Dispatcher) (line : Text)
    → IsReliable out
    → out.written ≡ true
    → (stream_of d log.filename).failed ≡ false
    → stored d log.filename line ≡ true
    → IsIn log.filename line (write_line out log d).0
unfolding write_line
write_line-IsIn out log d line reliable written fine h =
    if_cases (λ (r : Dispatcher × Bool). IsIn log.filename line r.0) _ _ _
      (λ failed. absurd (unfailed failed))
      (λ _.
        on_written-IsIn out log (after_flush out log d) line reliable
          (stored-after_flush out log d line h))
  where
    unfailed :
        (write out.spilt out.written log.log_line (stream_of d log.filename)).failed ≡ true → ⊥
    unfailed failed = ground arith

finish-IsIn :
    (log : LogData) (fn line : Text) (r : Dispatcher × Option Bool)
    → IsIn fn line r.0
    → IsIn fn line (finish log r)
unfolding finish
finish-IsIn log fn line (d, none) h = h
finish-IsIn log fn line (d, some done) h =
    if_cases (IsIn fn line) _ _ _ (λ _. h)
      (λ _.
        IsIn-streams fn line d (exec_log_extensions log done d)
          (streams-exec_log_extensions log done d) h)

handle-IsIn :
    (out : Outcome) (log : LogData) (d : Dispatcher) (line : Text)
    → IsReliable out
    → IsFiled log
    → out.file_exists ≡ true
    → out.written ≡ true
    → (stream_of d log.filename).failed ≡ false
    → stored d log.filename line ≡ true
    → IsIn log.filename line (handle out log d)
unfolding handle
handle-IsIn out log d line reliable (filed, stream, _) there written fine h =
    let P : Dispatcher × Option Bool → Type 0 = λ r. IsIn log.filename line r.0 in
    finish-IsIn log log.filename line (to_the_file out log d) (
      if_cases P (not log.to_file) _ _ (λ n. absurd (not_negated filed n))
        λ _.
          if_cases P (not log.has_stream) _ _ (λ n. absurd (not_negated stream n))
            λ _.
              if_cases P out.file_exists _ _
                (λ _. write_line-IsIn out log d line reliable written fine h)
                (λ gone. absurd (not_both there gone)))

-- A call that writes its line to a file that is there leaves in this file all that was in it or
-- waited in its buffer, provided that the flush of the buffer is written and comes to the file.
pub recovers :
    (out : Outcome) (log : LogData) (d : Dispatcher) (line : Text)
    → IsReliable out
    → IsFiled log
    → out.file_exists ≡ true
    → out.written ≡ true
    → (stream_of d log.filename).failed ≡ false
    → stored d log.filename line ≡ true
    → member (stream_of (handle out log d) log.filename).content line ≡ true
unfolding IsIn
recovers out log d line reliable filed there written fine h =
    handle-IsIn out log d line reliable filed there written fine h
