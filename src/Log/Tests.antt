-- ===== src/Log/Tests.antt =====
-- The logger with two appenders, and patterns with texts before directives.
use lib_net_co_rpc.Prelude.{ℕ, ◌≡◌, refl, some, List, [], ◌∷◌, arith, leb, ◌==◌, if◌then◌else◌}
use lib_net_co_rpc.Prelude.Int.{ℤ, pos}
use lib_net_co_rpc.Log.{text, parser, date_time, level, message, thread_name, init}
use lib_net_co_rpc.Log.Pattern.{Piece, print, items}
use lib_net_co_rpc.Log.Scan.{init-print}
use lib_net_co_rpc.Log.Logger.{LogEvent, Logger, Appenders, rank, debug, info, log}
use lib_net_co_rpc.Log.Output.{Logged, log-Logged}

-- "a%d%N[%m]"
abbrev sample_pieces : List Piece
sample_pieces =
    record { before = 97 ∷ []; directive = date_time }
    ∷ record { before = []; directive = thread_name }
    ∷ record { before = 91 ∷ []; directive = message }
    ∷ []

init-print_example :
    init (97 ∷ 37 ∷ 100 ∷ 37 ∷ 78 ∷ 91 ∷ 37 ∷ 109 ∷ 93 ∷ [])
    ≡ text (97 ∷ 37 ∷ []) ∷ parser date_time ∷ text (91 ∷ []) ∷ parser message ∷ text (93 ∷ []) ∷ []
unfolding print items
init-print_example =
    init-print sample_pieces (93 ∷ [])
      (((omega arith, omega arith), tt), (tt, (((omega arith, omega arith), tt), tt)))
      ((omega arith, omega arith), tt)

-- the time as one byte, and numbers as "0"
abbrev sample_time : ℕ → List ℕ
sample_time t = t ∷ []

abbrev sample_show : ℤ → List ℕ
sample_show n = 48 ∷ []

abbrev sample_event : LogEvent
sample_event = record {
  file = 102 ∷ [];
  line_number = 7;
  thread = pos 1;
  co_id = pos 2;
  time = 65;
  level_of = info;
  logger_of = [];
  stream = 109 ∷ [];
}

abbrev sample_appenders : Appenders
sample_appenders id =
    if id == 0
    then record { least_level = debug; formatter = some (parser message ∷ []); output = [] }
    else record { least_level = info; formatter = some (parser level ∷ []); output = [] }

abbrev sample_logger : Logger
sample_logger = record {
  log_name = [];
  appenders = 0 ∷ 1 ∷ 0 ∷ [];
  formatter_of = [];
  logger_level = debug;
}

log-Logged_example :
    (after : Appenders) × (log sample_time sample_show info sample_event sample_logger
        sample_appenders
      ≡ some after)
    × Logged sample_time sample_show info sample_event
        (if leb (rank debug) (rank info) then 0 ∷ 1 ∷ 0 ∷ [] else [])
        sample_appenders
        after
log-Logged_example =
    log-Logged sample_time sample_show info sample_event sample_logger sample_appenders
      ((parser message ∷ [], refl), ((parser level ∷ [], refl), ((parser message ∷ [], refl), tt)))
