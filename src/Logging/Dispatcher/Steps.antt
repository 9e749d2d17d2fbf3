-- ===== src/Logging/Dispatcher/Steps.antt =====
-- One call of the dispatcher (src/logging/residue-log-dispatcher.h): it keeps what is in the files
-- and their buffers, and its line as well.
use residue.Core.Configuration.{has_flag, residue_logger_id}
use residue.Core.Configuration.Flag
use residue.Logging.Dispatcher.{
  Dispatcher, LogData, Outcome, stream_of, with_stream, write, close, flush_line,
  exec_dispatch_error_extensions, add_to_dynamic_buffer, dispatch_dynamic_buffer, create_file,
  recovery_check, on_write_failed, on_written, write_line, to_the_file, finish, handle,
}
use residue.Logging.Dispatcher.Kept.{
  kept, Keeps, Keeps-refl, Keeps-trans, member-append, holds, holds-write, holds-write_self,
  holds-flush_line, holds-close, IsReliable, with_stream-Keeps, exec_log_extensions-Keeps,
  exec_dispatch_error_extensions-Keeps, reset_error_extensions-Keeps, kept-add_to_dynamic_buffer,
  add_to_dynamic_buffer-Keeps, dispatch_dynamic_buffer-Keeps,
}
use residue.Prelude.Map.{find-assign}
use residue.Prelude.{
  ◌≡◌, refl, sym, ap, ◌∙◌, ◌⊎◌, inl, inr, Bool, true, false, not, ◌&&◌, Option, none, some, [], ◌∷◌,
  arith, text_eq, text_eq_refl, if_cases,
}

-- A buffer that is flushed is written, what a stream is told to flush comes to its file, and no new
-- file takes the place of one that is gone.
abbrev pub IsSound : Outcome → Type 0
IsSound out =
    IsReliable out
    × (out.closes ≡ true)
    × (out.flushed ≡ true)
    × ((out.file_exists ≡ true) ⊎ ((out.path_created && out.created) ≡ false))

-- A line of a logger other than the server's own that goes to a file.
abbrev pub IsFiled : LogData → Type 0
IsFiled log =
    (log.to_file ≡ true)
    × (log.has_stream ≡ true)
    × (text_eq log.logger_id residue_logger_id ≡ false)

abbrev pub Buffers : Dispatcher → Type 0
Buffers d = has_flag d.configuration Flag.enable_dynamic_buffer ≡ true

on_failure : Outcome → LogData → Dispatcher → Dispatcher
on_failure out log d = exec_dispatch_error_extensions log out.errno (add_to_dynamic_buffer log d)

on_failure-Keeps : (out : Outcome) (log : LogData) (d : Dispatcher) → Keeps d (on_failure out log d)
unfolding on_failure
on_failure-Keeps out log d =
    Keeps-trans d (add_to_dynamic_buffer log d) (on_failure out log d)
      (add_to_dynamic_buffer-Keeps log d) (exec_dispatch_error_extensions-Keeps log out.errno _)

on_failure_self :
    (out : Outcome) (log : LogData) (d : Dispatcher)
    → Buffers d
    → text_eq log.logger_id residue_logger_id ≡ false
    → kept (on_failure out log d) log.filename log.log_line ≡ true
unfolding on_failure
on_failure_self out log d on other =
    (exec_dispatch_error_extensions-Keeps log out.errno (add_to_dynamic_buffer log d)).1
      log.filename log.log_line
      (ground (
        arith,
        kept-add_to_dynamic_buffer log d log.filename log.log_line,
        text_eq_refl log.filename,
        text_eq_refl log.log_line,
      ))

on_write_failed-Keeps :
    (out : Outcome) (log : LogData) (d : Dispatcher)
    → Keeps (on_failure out log d) (on_write_failed out log d)
unfolding on_write_failed on_failure
on_write_failed-Keeps out log d =
    let d1 = on_failure out log d in
    if_cases (Keeps d1) _ _ _
      (λ _. with_stream-Keeps d1 log.filename _ (λ line h.
        ground
          (arith, member-append (stream_of d1 log.filename).content (recovery_check ∷ []) line)))
      (λ _. Keeps-refl d1)

on_written-Keeps :
    (out : Outcome) (log : LogData) (d : Dispatcher)
    → IsReliable out
    → out.closes ≡ true
    → Keeps d (on_written out log d)
unfolding on_written
on_written-Keeps out log d reliable closes =
    let d1 = dispatch_dynamic_buffer out log.filename d in
    Keeps-trans d d1 (on_written out log d)
      (dispatch_dynamic_buffer-Keeps out log.filename d reliable closes)
      (if_cases (Keeps d1) _ _ _ (λ _. reset_error_extensions-Keeps d1) (λ _. Keeps-refl d1))

abbrev pub after_write : Outcome → LogData → Dispatcher → Dispatcher
after_write out log d =
    with_stream d log.filename (write out.spilt out.written log.log_line (stream_of d log.filename))

-- After the flush of the line, where it is needed.
abbrev pub after_flush : Outcome → LogData → Dispatcher → Dispatcher
after_flush out log d =
    with_stream (after_write out log d) log.filename
      (flush_line out (write out.spilt out.written log.log_line (stream_of d log.filename)))

pub after_write-Keeps :
    (out : Outcome) (log : LogData) (d : Dispatcher) → Keeps d (after_write out log d)
after_write-Keeps out log d =
    with_stream-Keeps d log.filename _
      (λ line h. holds-write out.spilt out.written log.log_line line (stream_of d log.filename) h)

stream-after_write :
    (out : Outcome) (log : LogData) (d : Dispatcher)
    → stream_of (after_write out log d) log.filename
      ≡ write out.spilt out.written log.log_line (stream_of d log.filename)
stream-after_write out log d =
    let fs = write out.spilt out.written log.log_line (stream_of d log.filename) in
    rw (find-assign d.streams log.filename log.filename fs, text_eq_refl log.filename) refl

flush-Keeps :
    (out : Outcome) (log : LogData) (d : Dispatcher)
    → out.flushed ≡ true
    → Keeps (after_write out log d) (after_flush out log d)
flush-Keeps out log d flushed = with_stream-Keeps (after_write out log d) log.filename _ (λ line h.
    holds-flush_line out line _ flushed
      (ap (λ fs. holds fs line) (sym (stream-after_write out log d)) ∙ h))

write_line-Keeps :
    (out : Outcome) (log : LogData) (d : Dispatcher)
    → IsSound out
    → Keeps d (write_line out log d).0
unfolding write_line
write_line-Keeps out log d (reliable, closes, flushed, _) =
    let d1 = after_write out log d in
    let d2 = after_flush out log d in
    if_cases (λ (r : Dispatcher × Bool). Keeps d r.0) _ _ _
      (λ _. Keeps-trans d d1 (on_write_failed out log d1) (after_write-Keeps out log d) (
        Keeps-trans d1 (on_failure out log d1) (on_write_failed out log d1)
          (on_failure-Keeps out log d1) (on_write_failed-Keeps out log d1)))
      (λ _. Keeps-trans d d1 (on_written out log d2) (after_write-Keeps out log d) (
        Keeps-trans d1 d2 (on_written out log d2) (flush-Keeps out log d flushed)
          (on_written-Keeps out log d2 reliable closes)))

write_line_self :
    (out : Outcome) (log : LogData) (d : Dispatcher)
    → IsSound out
    → Buffers d
    → text_eq log.logger_id residue_logger_id ≡ false
    → kept (write_line out log d).0 log.filename log.log_line ≡ true
unfolding write_line
write_line_self out log d (reliable, closes, flushed, _) on other =
    let d1 = after_write out log d in
    let d2 = after_flush out log d in
    let fs = write out.spilt out.written log.log_line (stream_of d log.filename) in
    if_cases (λ (r : Dispatcher × Bool). kept r.0 log.filename log.log_line ≡ true) _ _ _
      (λ _.
        (on_write_failed-Keeps out log d1).1 log.filename log.log_line
          (on_failure_self out log d1 on other))
      (λ (fine : fs.failed ≡ false).
        (on_written-Keeps out log d2 reliable closes).1 log.filename log.log_line (
          (flush-Keeps out log d flushed).1 log.filename log.log_line (
            ground (
              arith,
              find-assign d.streams log.filename log.filename fs,
              text_eq_refl log.filename,
              holds-write_self out.spilt out.written log.log_line (stream_of d log.filename) fine,
            ))))

neither : (a b : Bool) → (a && b) ≡ false → not a ≡ false → not b ≡ false → ⊥
neither a b h p q = ground arith

-- The stream of a file that could not be opened, closed and cleared.
abbrev reset_stream : Outcome → LogData → Dispatcher → Dispatcher
reset_stream out log d =
    with_stream d log.filename
      (record (close out.spilt out.closes (stream_of d log.filename)) { failed = false })

create_file-Keeps :
    (out : Outcome) (log : LogData) (d : Dispatcher)
    → (out.path_created && out.created) ≡ false
    → out.closes ≡ true
    → ((create_file out log d).1 ≡ false) × Keeps d (create_file out log d).0
unfolding create_file on_failure
create_file-Keeps out log d gone closes =
    let P : Dispatcher × Bool → Type 0 = λ r. (r.1 ≡ false) × Keeps d r.0 in
    let cleared = reset_stream out log d in
    if_cases P (not out.path_created) _ _ (λ _. (refl, on_failure-Keeps out log d))
      λ there.
        if_cases P (not out.created) _ _
          (λ _. (
            refl,
            Keeps-trans d cleared (on_failure out log cleared)
                (with_stream-Keeps d log.filename _
                  (λ line h. ground (arith, holds-close out line _ closes h)))
                (on_failure-Keeps out log cleared),
          ))
          (λ made. absurd (neither out.path_created out.created gone there made))

create_file_self :
    (out : Outcome) (log : LogData) (d : Dispatcher)
    → (out.path_created && out.created) ≡ false
    → Buffers d
    → text_eq log.logger_id residue_logger_id ≡ false
    → kept (create_file out log d).0 log.filename log.log_line ≡ true
unfolding create_file on_failure
create_file_self out log d gone on other =
    let P : Dispatcher × Bool → Type 0 = λ r. kept r.0 log.filename log.log_line ≡ true in
    let cleared = reset_stream out log d in
    if_cases P (not out.path_created) _ _ (λ _. on_failure_self out log d on other)
      λ there.
        if_cases P (not out.created) _ _ (λ _. on_failure_self out log cleared on other)
          (λ made. absurd (neither out.path_created out.created gone there made))

pub finish-Keeps : (log : LogData) (r : Dispatcher × Option Bool) → Keeps r.0 (finish log r)
unfolding finish
finish-Keeps log (d, none) = Keeps-refl d
finish-Keeps log (d, some done) =
    if_cases (Keeps d) _ _ _ (λ _. Keeps-refl d) (λ _. exec_log_extensions-Keeps log done d)

pub not_both : {b : Bool} → b ≡ true → b ≡ false → ⊥
not_both p q = cc

pub not_negated : {b : Bool} → b ≡ true → not b ≡ true → ⊥
not_negated p q = ground arith

there_or_gone :
    (out : Outcome)
    → (out.file_exists ≡ true) ⊎ ((out.path_created && out.created) ≡ false)
    → out.file_exists ≡ false
    → (out.path_created && out.created) ≡ false
there_or_gone out (inl there) gone = absurd (not_both there gone)
there_or_gone out (inr gone) _ = gone

to_the_file-Keeps :
    (out : Outcome) (log : LogData) (d : Dispatcher)
    → IsSound out
    → Keeps d (to_the_file out log d).0
to_the_file-Keeps out log d sound =
    let (_, closes, _, place) = sound in
    let P : Dispatcher × Option Bool → Type 0 = λ r. Keeps d r.0 in
    if_cases P (not log.to_file) _ _ (λ _. Keeps-refl d)
      λ _.
        if_cases P (not log.has_stream) _ _ (λ _. Keeps-refl d)
          λ _.
            if_cases P out.file_exists _ _ (λ _. write_line-Keeps out log d sound)
              λ gone.
                let (failed, keeps) =
                  create_file-Keeps out log d (there_or_gone out place gone) closes in
                if_cases P (create_file out log d).1 _ _ (λ made. absurd (not_both made failed))
                  (λ _. keeps)

to_the_file_self :
    (out : Outcome) (log : LogData) (d : Dispatcher)
    → IsSound out
    → IsFiled log
    → Buffers d
    → kept (to_the_file out log d).0 log.filename log.log_line ≡ true
to_the_file_self out log d sound (filed, stream, other) on =
    let (_, closes, _, place) = sound in
    let P : Dispatcher × Option Bool → Type 0 = λ r. kept r.0 log.filename log.log_line ≡ true in
    if_cases P (not log.to_file) _ _ (λ n. absurd (not_negated filed n))
      λ _.
        if_cases P (not log.has_stream) _ _ (λ n. absurd (not_negated stream n))
          λ _.
            if_cases P out.file_exists _ _ (λ _. write_line_self out log d sound on other)
              λ gone.
                let none_made = there_or_gone out place gone in
                let (failed, _) = create_file-Keeps out log d none_made closes in
                if_cases P (create_file out log d).1 _ _ (λ made. absurd (not_both made failed))
                  (λ _. create_file_self out log d none_made on other)

pub handle-Keeps :
    (out : Outcome) (log : LogData) (d : Dispatcher) → IsSound out → Keeps d (handle out log d)
unfolding handle
handle-Keeps out log d sound =
    let r = to_the_file out log d in
    Keeps-trans d r.0 (finish log r) (to_the_file-Keeps out log d sound) (finish-Keeps log r)

pub handle_self :
    (out : Outcome) (log : LogData) (d : Dispatcher)
    → IsSound out
    → IsFiled log
    → Buffers d
    → kept (handle out log d) log.filename log.log_line ≡ true
unfolding handle
handle_self out log d sound filed on =
    let r = to_the_file out log d in
    (finish-Keeps log r).1 log.filename log.log_line (to_the_file_self out log d sound filed on)
