-- ===== src/Log/Logger.antt =====
-- Events, appenders, `Logger` and `LoggerManager`. The loggers hold their appenders by pointer: a
-- pointer is a number, and the appenders stand in a store. Each call runs under its lock.
use lib_net_co_rpc.Prelude.{
  ℕ, ◌+◌, Option, none, some, List, [], ◌∷◌, ◌++◌, ltb, leb, ◌==◌, if◌then◌else◌,
}
use lib_net_co_rpc.Prelude.Int.{ℤ, pos}
use lib_net_co_rpc.NameService.{bytes_eq}
use lib_net_co_rpc.Log.{
  Directive, date_time, tab, thread_id, thread_name, fiber_id, level, logger_name, file_name, line,
  message, new_line, Item, text, parser, init,
}

-- `LogLevel::Level`
pub data Level : Type 0 where
  unknown debug info warn error fatal : Level

abbrev pub rank : Level → ℕ
rank unknown = 0
rank debug = 1
rank info = 2
rank warn = 3
rank error = 4
rank fatal = 5

-- What the parsers read of a `LogEvent`. `message` is what its stream holds.
pub record LogEvent : Type 0 where
  pub file : List ℕ
  pub line_number : ℕ
  pub thread : ℤ
  pub co_id : ℤ
  pub time : ℕ
  pub level_of : Level
  pub logger_of : List ℕ
  pub stream : List ℕ

-- the string of `LevelFormatItem`
abbrev pub level_name : Level → List ℕ
level_name unknown = 85 ∷ 78 ∷ 75 ∷ 78 ∷ 79 ∷ 87 ∷ 78 ∷ []
level_name debug = 68 ∷ 69 ∷ 66 ∷ 85 ∷ 71 ∷ []
level_name info = 73 ∷ 78 ∷ 70 ∷ 79 ∷ []
level_name warn = 87 ∷ 65 ∷ 82 ∷ 78 ∷ []
level_name error = 69 ∷ 82 ∷ 82 ∷ 79 ∷ 82 ∷ []
level_name fatal = 70 ∷ 65 ∷ 84 ∷ 65 ∷ 76 ∷ []

pub record LoggerAppender : Type 0 where
  pub least_level : Level
  pub formatter : Option (List Item)
  pub output : List ℕ

pub record Logger : Type 0 where
  pub log_name : List ℕ
  pub appenders : List ℕ
  pub formatter_of : List Item
  pub logger_level : Level

abbrev pub Appenders : Type 0
Appenders = ℕ → LoggerAppender

abbrev pub set_appender : Appenders → ℕ → LoggerAppender → Appenders
set_appender store id a i = if id == i then a else store i

-- `addAppender`
unfoldable pub add_appender : ℕ → Logger → Appenders → Logger × Appenders
add_appender id l store = (
  record l { appenders = l.appenders ++ id ∷ [] },
  elim (store id).formatter [
    | some f ↦ store
    | none ↦ set_appender store id (record (store id) { formatter = some l.formatter_of })
  ],
)

unfoldable pub erase_first : ℕ → List ℕ → List ℕ
erase_first id [] = []
erase_first id (i ∷ ids) = if i == id then ids else i ∷ erase_first id ids

-- `delAppender`
unfoldable pub del_appender : ℕ → Logger → Logger
del_appender id l = record l { appenders = erase_first id l.appenders }

-- `setLevel` and `setFormatter`
abbrev pub set_level : Level → Logger → Logger
set_level x l = record l { logger_level = x }

abbrev pub set_formatter : List ℕ → Logger → Logger
set_formatter pattern l = record l { formatter_of = init pattern }

-- `strftime` is how the C library writes a local time, and `show` how a stream writes a number.
module _ (strftime : ℕ → List ℕ) (show : ℤ → List ℕ) where
  -- the functions of `EventParse`; `std::endl` writes a newline
  unfoldable pub parse_event : Directive → LogEvent → List ℕ
  parse_event date_time e = strftime e.time
  parse_event tab e = 9 ∷ []
  parse_event thread_id e = show e.thread
  parse_event thread_name e = []
  parse_event fiber_id e = show e.co_id
  parse_event level e = level_name e.level_of
  parse_event logger_name e = e.logger_of
  parse_event file_name e = e.file
  parse_event line e = show (pos e.line_number)
  parse_event message e = e.stream
  parse_event new_line e = 10 ∷ []

  -- `LoggerFormatter::format`
  unfoldable pub format : List Item → LogEvent → List ℕ
  format [] e = []
  format (text s ∷ items) e = s ++ format items e
  format (parser d ∷ items) e = parse_event d e ++ format items e

  -- `log` of an appender; `none` is a call through its null formatter
  unfoldable pub appender_log : Level → LogEvent → LoggerAppender → Option LoggerAppender
  appender_log x e a =
      if ltb (rank a.least_level) (rank x)
      then elim a.formatter [
        | none ↦ none
        | some f ↦ some (record a { output = a.output ++ format f e })
      ]
      else some a

  -- the loop of `Logger::log`
  unfoldable pub log_all : Level → LogEvent → List ℕ → Appenders → Option Appenders
  log_all x e [] store = some store
  log_all x e (id ∷ ids) store = elim (appender_log x e (store id)) [
    | none ↦ none
    | some a ↦ log_all x e ids (set_appender store id a)
  ]

  -- `Logger::log`
  unfoldable pub log : Level → LogEvent → Logger → Appenders → Option Appenders
  log x e l store =
      if leb (rank l.logger_level) (rank x) then log_all x e l.appenders store else some store

-- `LoggerManager`: the loggers by name, and the loggers that were made
pub record LoggerManager : Type 0 where
  pub logger_map : List ℕ → Option ℕ
  pub loggers : ℕ → Logger
  pub next_logger : ℕ

-- the pattern "%d%T[%p]%T[%t]%T%f:%l%T%m%n"
abbrev pub default_pattern : List ℕ
default_pattern =
    37 ∷ 100 ∷ 37 ∷ 84 ∷ 91 ∷ 37 ∷ 112 ∷ 93 ∷ 37 ∷ 84 ∷ 91 ∷ 37 ∷ 116 ∷ 93 ∷ 37 ∷ 84 ∷ 37 ∷ 102 ∷ 58
    ∷ 37 ∷ 108 ∷ 37 ∷ 84 ∷ 37 ∷ 109 ∷ 37 ∷ 110 ∷ []

-- `Logger(name)`
abbrev pub new_logger : List ℕ → Logger
new_logger name = record {
  log_name = name;
  appenders = [];
  formatter_of = init default_pattern;
  logger_level = debug;
}

-- `loggerMap_.insert({name, newLogger})`, which leaves an entry that is there
abbrev pub map_insert : (List ℕ → Option ℕ) → List ℕ → ℕ → List ℕ → Option ℕ
map_insert m name id k =
    if bytes_eq name k then elim (m k) [ none ↦ some id | some old ↦ some old ] else m k

-- `getLogger`; nothing comes between its two locked parts here
unfoldable pub get_logger : List ℕ → LoggerManager → ℕ × LoggerManager
get_logger name m = elim (m.logger_map name) [
  | some id ↦ (id, m)
  | none ↦ (
    m.next_logger,
    record {
      logger_map = map_insert m.logger_map name m.next_logger;
      loggers = λ i. if m.next_logger == i then new_logger name else m.loggers i;
      next_logger = m.next_logger + 1;
    },
  )
]
