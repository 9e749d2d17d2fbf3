-- ===== src/Logging/Dispatcher/Kept.antt =====
-- What each step of the dispatcher (src/logging/residue-log-dispatcher.h) keeps: a line that is in
-- a file or in the dynamic buffer.
use residue.Core.Configuration.{member, has_flag, residue_logger_id}
use residue.Core.Configuration.Flag
use residue.Logging.Dispatcher.{
  Stream, FailedLogs, Dispatcher, LogData, Outcome, stream_of, lines_of, buffered, with_stream,
  write, close, flush_line, exec_log_extensions, exec_dispatch_error_extensions,
  reset_error_extensions, push_line, add_to_dynamic_buffer, write_all, header, footer, flush_lines,
  dispatch_logs, dispatch_dynamic_buffer,
}
use residue.Prelude.Map
use residue.Prelude.Map.{
  Map, is_some, map_option, find-assign, find-insert, find-modify, find-erase_other,
}
use residue.Prelude.{
  ℕ, suc, ◌≡◌, refl, ◌∙◌, inl, inr, Bool, true, false, not, ◌&&◌, ◌||◌, Option, none, some, List,
  [], ◌∷◌, ◌++◌, append_assoc, append-nil, arith, if◌then◌else◌, Bool-cases, length, Text, text_eq,
  text_eq_iff, text_eq_refl, is_empty, if_cases,
}

-- The line has come to the file, or waits in its stream.
abbrev pub holds : Stream → Text → Bool
holds fs line = member fs.content line || member fs.waiting line

-- The line has come to the file, or waits in its stream or its buffer.
abbrev pub kept : Dispatcher → Text → Text → Bool
kept d fn line = holds (stream_of d fn) line || member (buffered d fn) line

-- The line has come to the file, or waits in its buffer.
abbrev pub stored : Dispatcher → Text → Text → Bool
stored d fn line = member (stream_of d fn).content line || member (buffered d fn) line

abbrev pub Keeps : Dispatcher → Dispatcher → Type 0
Keeps d d' =
    (d'.configuration ≡ d.configuration)
    × ((fn line : Text) → kept d fn line ≡ true → kept d' fn line ≡ true)

pub Keeps-refl : (d : Dispatcher) → Keeps d d
Keeps-refl d = (refl, λ fn line h. h)

pub Keeps-trans : (d e f : Dispatcher) → Keeps d e → Keeps e f → Keeps d f
Keeps-trans d e f h k = (k.0 ∙ h.0, λ fn line y. k.1 fn line (h.1 fn line y))

pub member-append :
    (xs ys : List Text) (a : Text) → member (xs ++ ys) a ≡ (member xs a || member ys a)
member-append [] ys a = refl
member-append (x ∷ xs) ys a = ground (arith, member-append xs ys a)

-- What stands in a file stays there, and what waits in its stream waits on or comes to it.
pub holds-write :
    (spilt : List Text) (accepted : Bool) (text line : Text) (fs : Stream)
    → holds fs line ≡ true
    → holds (write spilt accepted text fs) line ≡ true
holds-write spilt accepted text line fs h =
    ground (arith, member-append fs.content spilt line, member-append fs.waiting (text ∷ []) line)

pub content-write :
    (spilt : List Text) (accepted : Bool) (text line : Text) (fs : Stream)
    → member fs.content line ≡ true
    → member (write spilt accepted text fs).content line ≡ true
content-write spilt accepted text line fs h = ground (arith, member-append fs.content spilt line)

pub holds-write_self :
    (spilt : List Text) (accepted : Bool) (text : Text) (fs : Stream)
    → (write spilt accepted text fs).failed ≡ false
    → holds (write spilt accepted text fs) text ≡ true
holds-write_self spilt accepted text fs h =
    ground (arith, member-append fs.waiting (text ∷ []) text, text_eq_refl text)

pub holds-flush_line :
    (out : Outcome) (line : Text) (fs : Stream)
    → out.flushed ≡ true
    → holds fs line ≡ true
    → holds (flush_line out fs) line ≡ true
holds-flush_line out line fs flushed h =
    ground (arith, flushed, member-append fs.content fs.waiting line)

pub content-flush_line :
    (out : Outcome) (line : Text) (fs : Stream)
    → member fs.content line ≡ true
    → member (flush_line out fs).content line ≡ true
content-flush_line out line fs h =
    ground
      (arith, member-append fs.content fs.waiting line, member-append fs.content out.spilt line)

pub write_all-accepted :
    (spilt : List Text) (accepts : ℕ → Bool) (i : ℕ) (lines : List Text) (fs : Stream)
    → ((j : ℕ) → accepts j ≡ true)
    → fs.failed ≡ false
    → write_all spilt accepts i lines fs
      ≡ record fs { waiting = fs.waiting ++ lines; failed = false }
unfolding write_all
write_all-accepted spilt accepts i [] fs all fine = ground (arith, append-nil fs.waiting)
write_all-accepted spilt accepts i (line ∷ lines) fs all fine = ground (
  arith,
  all i,
  write_all-accepted spilt accepts (suc i) lines (write spilt (accepts i) line fs) all,
  append_assoc fs.waiting (line ∷ []) lines,
)

-- The file opens again, and takes what the buffer has.
abbrev pub IsReliable : Outcome → Type 0
IsReliable out = (out.reopened ≡ true) × (out.ended ≡ true) × ((i : ℕ) → out.accepts i ≡ true)

pub content-flush_lines :
    (out : Outcome) (lines : List Text) (fs : Stream)
    → IsReliable out
    → (flush_lines out lines fs).content
      ≡ (close out.spilt out.closes fs).content
        ++ ((header (length lines) ∷ lines) ++ footer (length lines) out.flushed_in ∷ [])
unfolding flush_lines
content-flush_lines out lines fs (reopened, ended, accepts) =
    let size = length lines in
    let opened = record (close out.spilt out.closes fs) { failed = false } in
    let headed = record opened { waiting = header size ∷ [] } in
    rw (reopened, ended, accepts 0, accepts (suc size))
      (rw (write_all-accepted out.spilt out.accepts 1 lines headed accepts refl) refl)

pub with_stream-Keeps :
    (d : Dispatcher) (fn : Text) (fs : Stream)
    → ((line : Text) → holds (stream_of d fn) line ≡ true → holds fs line ≡ true)
    → Keeps d (with_stream d fn fs)
with_stream-Keeps d fn fs more = (
  refl,
  λ fn' line h. ground (arith, more line, find-assign d.streams fn fn' fs, text_eq_iff fn fn'),
)

pub exec_log_extensions-Keeps :
    (log : LogData) (done : Bool) (d : Dispatcher) → Keeps d (exec_log_extensions log done d)
unfolding exec_log_extensions
exec_log_extensions-Keeps log done d =
    if_cases (Keeps d) _ _ _ (λ _. (refl, λ fn line h. h)) (λ _. (refl, λ fn line h. h))

pub exec_dispatch_error_extensions-Keeps :
    (log : LogData) (errno : ℕ) (d : Dispatcher)
    → Keeps d (exec_dispatch_error_extensions log errno d)
unfolding exec_dispatch_error_extensions
exec_dispatch_error_extensions-Keeps log errno d =
    if_cases (Keeps d) _ _ _ (λ _. (refl, λ fn line h. h)) (λ _. (refl, λ fn line h. h))

pub reset_error_extensions-Keeps : (d : Dispatcher) → Keeps d (reset_error_extensions d)
unfolding reset_error_extensions
reset_error_extensions-Keeps d =
    if_cases (Keeps d) _ _ _ (λ _. (refl, λ fn line h. h)) (λ _. (refl, λ fn line h. h))

member-push_line :
    (a line : Text) (logs : FailedLogs)
    → member (push_line a logs).lines line ≡ (text_eq a line || member logs.lines line)
member-push_line a line logs =
    ground (arith, text_eq_iff a line, member-append logs.lines (a ∷ []) line)

module _ (log : LogData) (m : Map FailedLogs) where
  abbrev fresh : FailedLogs
  fresh = record { logger = log.logger_id; lines = [] }

  added : Map FailedLogs
  added = Map.modify (Map.insert m log.filename fresh) log.filename (push_line log.log_line)

  lines-added :
      (fn line : Text)
      → member (lines_of (Map.find added fn)) line ≡ (
          (text_eq log.filename fn && text_eq log.log_line line)
          || member (lines_of (Map.find m fn)) line)
  unfolding added
  lines-added fn line =
      rw (find-modify (Map.insert m log.filename fresh) log.filename fn (push_line log.log_line)) (
        rw (find-insert m log.filename fn fresh)
          (cases (Map.find m fn) (Map.find m log.filename) refl refl))
    where
      cases :
          (o f : Option FailedLogs)
          → Map.find m fn ≡ o
          → Map.find m log.filename ≡ f
          → member
              (lines_of (
                if text_eq log.filename fn
                then map_option
                    (push_line log.log_line)
                    (if is_some f then o else if text_eq log.filename fn then some fresh else o)
                else if is_some f
                then o
                else if text_eq log.filename fn
                then some fresh
                else o))
              line
            ≡ ((text_eq log.filename fn && text_eq log.log_line line) || member (lines_of o) line)
      cases none none e e' = ground (arith, member-push_line log.log_line line fresh)
      cases none (some g) e e' = ground (arith, e, e', text_eq_iff log.filename fn)
      cases (some logs) none e e' = ground (arith, e, e', text_eq_iff log.filename fn)
      cases (some logs) (some g) e e' = ground (arith, member-push_line log.log_line line logs)

pub kept-add_to_dynamic_buffer :
    (log : LogData) (d : Dispatcher) (fn line : Text)
    → kept (add_to_dynamic_buffer log d) fn line ≡ (
        (has_flag d.configuration Flag.enable_dynamic_buffer
            && not (text_eq log.logger_id residue_logger_id))
          && (text_eq log.filename fn && text_eq log.log_line line)
        || kept d fn line)
unfolding add_to_dynamic_buffer added
kept-add_to_dynamic_buffer log d fn line = ground (arith, lines-added log d.dynamic_buffer fn line)

configuration-add_to_dynamic_buffer :
    (log : LogData) (d : Dispatcher) → (add_to_dynamic_buffer log d).configuration ≡ d.configuration
unfolding add_to_dynamic_buffer
configuration-add_to_dynamic_buffer log d =
    if_cases (λ (e : Dispatcher). e.configuration ≡ d.configuration) _ _ _ (λ _. refl) (λ _. refl)

pub add_to_dynamic_buffer-Keeps :
    (log : LogData) (d : Dispatcher) → Keeps d (add_to_dynamic_buffer log d)
add_to_dynamic_buffer-Keeps log d = (
  configuration-add_to_dynamic_buffer log d,
  λ fn line h. ground (arith, kept-add_to_dynamic_buffer log d fn line),
)

member-is_empty : (xs : List Text) (a : Text) → is_empty xs ≡ true → member xs a ≡ false
member-is_empty [] a h = refl
member-is_empty (x ∷ xs) a h = cc

member-flush_lines :
    (out : Outcome) (lines : List Text) (line : Text) (fs : Stream)
    → IsReliable out
    → (member (close out.spilt out.closes fs).content line || member lines line) ≡ true
    → member (flush_lines out lines fs).content line ≡ true
member-flush_lines out lines line fs reliable h =
    let before = (close out.spilt out.closes fs).content in
    let written = header (length lines) ∷ lines in
    let end = footer (length lines) out.flushed_in ∷ [] in
    rw (content-flush_lines out lines fs reliable)
      (ground (arith, member-append before (written ++ end) line, member-append written end line))

content-close :
    (out : Outcome) (line : Text) (fs : Stream)
    → member fs.content line ≡ true
    → member (close out.spilt out.closes fs).content line ≡ true
content-close out line fs h =
    ground (arith, member-append fs.content (if out.closes then fs.waiting else out.spilt) line)

pub holds-close :
    (out : Outcome) (line : Text) (fs : Stream)
    → out.closes ≡ true
    → holds fs line ≡ true
    → member (close out.spilt out.closes fs).content line ≡ true
holds-close out line fs closes h =
    rw closes (ground (arith, member-append fs.content fs.waiting line))

content-dispatch_logs :
    (out : Outcome) (fn line : Text) (d : Dispatcher) (o : Option FailedLogs)
    → IsReliable out
    → (member (stream_of d fn).content line || member (lines_of o) line) ≡ true
    → member (stream_of (dispatch_logs out fn d o) fn).content line ≡ true
unfolding dispatch_logs
content-dispatch_logs out fn line d none reliable h = ground arith
content-dispatch_logs out fn line d (some logs) reliable h =
    if_cases (λ e. member (stream_of e fn).content line ≡ true) (is_empty logs.lines) _ _
      (λ y. ground (arith, member-is_empty logs.lines line y))
      (λ _. ground (
        arith,
        find-assign d.streams fn fn (flush_lines out logs.lines (stream_of d fn)),
        text_eq_refl fn,
        content-close out line (stream_of d fn),
        member-flush_lines out logs.lines line (stream_of d fn) reliable,
      ))

holds-dispatch_logs :
    (out : Outcome) (fn line : Text) (d : Dispatcher) (o : Option FailedLogs)
    → IsReliable out
    → out.closes ≡ true
    → (holds (stream_of d fn) line || member (lines_of o) line) ≡ true
    → holds (stream_of (dispatch_logs out fn d o) fn) line ≡ true
unfolding dispatch_logs
holds-dispatch_logs out fn line d none reliable closes h = ground arith
holds-dispatch_logs out fn line d (some logs) reliable closes h =
    if_cases (λ e. holds (stream_of e fn) line ≡ true) (is_empty logs.lines) _ _
      (λ y. ground (arith, member-is_empty logs.lines line y))
      (λ _. ground (
        arith,
        find-assign d.streams fn fn (flush_lines out logs.lines (stream_of d fn)),
        text_eq_refl fn,
        holds-close out line (stream_of d fn) closes,
        member-flush_lines out logs.lines line (stream_of d fn) reliable,
      ))

-- Nothing that was in the buffer of the file, or in the file, is missing from it after a flush.
pub content-dispatch_dynamic_buffer :
    (out : Outcome) (fn line : Text) (d : Dispatcher)
    → IsReliable out
    → stored d fn line ≡ true
    → member (stream_of (dispatch_dynamic_buffer out fn d) fn).content line ≡ true
unfolding dispatch_dynamic_buffer
content-dispatch_dynamic_buffer out fn line d reliable h =
    content-dispatch_logs out fn line d (Map.find d.dynamic_buffer fn) reliable h

dispatch_logs_other :
    (out : Outcome) (fn other line : Text) (d : Dispatcher) (o : Option FailedLogs)
    → text_eq fn other ≡ false
    → kept (dispatch_logs out fn d o) other line ≡ kept d other line
unfolding dispatch_logs
dispatch_logs_other out fn other line d none ne = refl
dispatch_logs_other out fn other line d (some logs) ne =
    if_cases
      (λ e.
        kept (record e { dynamic_buffer = Map.erase e.dynamic_buffer fn }) other line
        ≡ kept d other line)
      (is_empty logs.lines) _ _ (λ _. rw (find-erase_other d.dynamic_buffer fn other ne) refl)
      (λ _.
        rw
          (
            find-erase_other d.dynamic_buffer fn other ne,
            find-assign d.streams fn other (flush_lines out logs.lines (stream_of d fn)),
            ne,
          )
          refl)

configuration-dispatch_logs :
    (out : Outcome) (fn : Text) (d : Dispatcher) (o : Option FailedLogs)
    → (dispatch_logs out fn d o).configuration ≡ d.configuration
unfolding dispatch_logs
configuration-dispatch_logs out fn d none = refl
configuration-dispatch_logs out fn d (some logs) =
    if_cases (λ (e : Dispatcher). e.configuration ≡ d.configuration) (is_empty logs.lines) _ _
      (λ _. refl) (λ _. refl)

pub dispatch_dynamic_buffer-Keeps :
    (out : Outcome) (fn : Text) (d : Dispatcher)
    → IsReliable out
    → out.closes ≡ true
    → Keeps d (dispatch_dynamic_buffer out fn d)
unfolding dispatch_dynamic_buffer
dispatch_dynamic_buffer-Keeps out fn d reliable closes = (
  configuration-dispatch_logs out fn d (Map.find d.dynamic_buffer fn),
  λ other line h. elim (Bool-cases (text_eq fn other)) [
    | inl same ↦ ground (
      arith,
      text_eq_iff fn other,
      holds-dispatch_logs out fn line d (Map.find d.dynamic_buffer fn) reliable closes,
    )
    | inr ne ↦ dispatch_logs_other out fn other line d (Map.find d.dynamic_buffer fn) ne ∙ h
  ],
)
