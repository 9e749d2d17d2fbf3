-- ===== src/Logging/Dispatcher/NeverLost.antt =====
-- What becomes of a line over any calls of the dispatcher (src/logging/residue-log-dispatcher.h),
-- however the writes of these fail.
use residue.Core.Configuration.{has_flag}
use residue.Core.Configuration.Flag
use residue.Logging.Dispatcher.{Dispatcher, LogData, Outcome, handle}
use residue.Logging.Dispatcher.Kept.{kept, Keeps, Keeps-refl, Keeps-trans}
use residue.Prelude.{◌≡◌, true, List, [], ◌∷◌, All}
use residue.Logging.Dispatcher.Steps.{IsSound, IsFiled, handle-Keeps, handle_self}

abbrev pub Call : Type 0
Call = Outcome × LogData

abbrev pub run : List Call → Dispatcher → Dispatcher
run [] d = d
run ((out, log) ∷ calls) d = run calls (handle out log d)

run-Keeps :
    (calls : List Call) (d : Dispatcher) → All (λ c. IsSound c.0) calls → Keeps d (run calls d)
run-Keeps [] d sound = Keeps-refl d
run-Keeps ((out, log) ∷ calls) d (sound, rest) =
    Keeps-trans d (handle out log d) (run calls (handle out log d)) (handle-Keeps out log d sound)
      (run-Keeps calls (handle out log d) rest)

-- With the dynamic buffer on, a line that a logger other than the server's own gives to its file is
-- in that file, in the stream that is open on it, or in its buffer after any calls that follow,
-- however the writes of loggers fail, provided that each flush of a buffer is written, that what a
-- stream flushes or holds when it is closed comes to its file, and that no new file takes the place of
-- a lost one.
pub never_lost :
    (out : Outcome) (log : LogData) (calls : List Call) (d : Dispatcher)
    → has_flag d.configuration Flag.enable_dynamic_buffer ≡ true
    → IsFiled log
    → All (λ c. IsSound c.0) ((out, log) ∷ calls)
    → kept (run ((out, log) ∷ calls) d) log.filename log.log_line ≡ true
never_lost out log calls d on filed (sound, rest) =
    (run-Keeps calls (handle out log d) rest).1 log.filename log.log_line
      (handle_self out log d sound filed on)
