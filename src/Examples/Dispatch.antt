-- ===== src/Examples/Dispatch.antt =====
-- The theorems on the dispatcher, at work.
use residue.Core.Configuration.{Configuration, member, has_flag}
use residue.Core.Configuration.Flag
use residue.Logging.Dispatcher.{
  Dispatcher, LogData, Outcome, stream_of, buffered, handle, add_to_dynamic_buffer, write_line,
  on_write_failed, exec_dispatch_error_extensions,
}
use residue.Logging.Dispatcher.Kept.{kept, stored}
use residue.Logging.Dispatcher.NeverLost.{run, never_lost}
use residue.Logging.Dispatcher.Recovery.{recovers}
use residue.Examples.Data.{conf, log_request}
use residue.Prelude.Map
use residue.Prelude.{◌≡◌, refl, inl, true, false, [], ◌∷◌, Text, codes, text_eq}

abbrev buffering : Configuration
buffering = record conf { flag = 2048 }

abbrev start : Dispatcher
start = record {
  configuration = buffering;
  has_dispatch_error_extensions = true;
  has_log_extensions = false;
  streams = [];
  dynamic_buffer = [];
  previously_failed = false;
  triggered = [];
}

abbrev says : Text → LogData
says line = record {
  request = log_request [];
  logger_id = codes "app";
  level = 4;
  log_line = line;
  to_file = true;
  filename = codes "app.log";
  has_stream = true;
}

abbrev fine : Outcome
fine = record {
  file_exists = true;
  path_created = true;
  created = true;
  written = true;
  flush_needed = true;
  flushed = true;
  spilt = [];
  recovered = true;
  reopened = true;
  closes = true;
  ended = true;
  accepts = λ i. true;
  flushed_in = 7;
  errno = 0;
}

abbrev full : Outcome
full = record fine { written = false; recovered = false; errno = 28 }

waits : buffered (handle full (says (codes "one")) start) (codes "app.log") ≡ codes "one" ∷ []
unfolding handle write_line on_write_failed add_to_dynamic_buffer has_flag Map.insert Map.modify
    Map.assign Map.find text_eq exec_dispatch_error_extensions
waits = refl

on : has_flag buffering Flag.enable_dynamic_buffer ≡ true
unfolding has_flag
on = refl

elsewhere : text_eq (codes "app") (codes "residue") ≡ false
unfolding text_eq
elsewhere = refl

never_lost_example :
    kept
      (run
        ((full, says (codes "one"))
          ∷ (full, says (codes "two"))
          ∷ (fine, says (codes "three"))
          ∷ [])
        start)
      (codes "app.log")
      (codes "one")
    ≡ true
never_lost_example =
    never_lost full (says (codes "one"))
      ((full, says (codes "two")) ∷ (fine, says (codes "three")) ∷ []) start on
      (refl, refl, elsewhere)
      (
        ((refl, refl, λ i. refl), refl, refl, inl refl),
        (
          ((refl, refl, λ i. refl), refl, refl, inl refl),
          (((refl, refl, λ i. refl), refl, refl, inl refl), tt),
        ),
      )

-- The file is full for one line, and then has room again.
abbrev room : Dispatcher
room = record start {
  streams = (codes "app.log", record { content = []; waiting = []; failed = false }) ∷ [];
  dynamic_buffer =
      (codes "app.log", record { logger = codes "app"; lines = codes "one" ∷ [] }) ∷ [];
}

one_waits : stored room (codes "app.log") (codes "one") ≡ true
unfolding Map.find text_eq
one_waits = refl

unfailed : (stream_of room (codes "app.log")).failed ≡ false
unfolding Map.find text_eq
unfailed = refl

recovers_example :
    member
      (stream_of (handle fine (says (codes "two")) room) (codes "app.log")).content
      (codes "one")
    ≡ true
recovers_example =
    recovers fine (says (codes "two")) room (codes "one") (refl, refl, λ i. refl)
      (refl, refl, elsewhere) refl refl unfailed one_waits

-- A line that is written but not flushed is lost with a flush that fails.
abbrev lossy : Outcome
lossy = record fine { flushed = false }

line_lost : kept (handle lossy (says (codes "one")) start) (codes "app.log") (codes "one") ≡ false
unfolding handle write_line has_flag Map.insert Map.modify Map.assign Map.find text_eq
line_lost = refl
