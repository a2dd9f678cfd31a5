-- ===== src/Log.antt =====
-- The logger of include/log.h and src/log.cc: the pattern of a `LoggerFormatter`, what it makes of an
-- event, the loggers and their appenders, and the manager of the loggers. A string is the list of its
-- bytes. How the C library writes a time and how a stream writes a number are parameters.
pub mod Pattern
pub mod Scan
pub mod Logger
pub mod Output
mod Tests
use lib_net_co_rpc.Prelude.{
  ℕ, zero, suc, ◌+◌, ◌-◌, ◌≡◌, Bool, true, false, Option, none, some, List, [], ◌∷◌, ◌++◌, ltb, leb,
  ◌==◌, if◌then◌else◌, length, take, drop,
}

-- The parsers of `EventParse`, `ThreadNameFormatItem` and `NameFormatItem` among them.
pub data Directive : Type 0 where
  date_time tab thread_id thread_name fiber_id level logger_name file_name line message new_line :
      Directive

-- `LoggerFormatter::Item`
pub data Item : Type 0 where
  text : List ℕ → Item
  parser : Directive → Item

-- '%'
abbrev pub percent : ℕ
percent = 37

-- the cases of the `switch` in `LoggerFormatter::init`
unfoldable pub directive_of : ℕ → Option Directive
directive_of c =
    if c == 100
    then some date_time
    else if c == 84
    then some tab
    else if c == 116
    then some thread_id
    else if c == 78
    then some thread_name
    else if c == 70
    then some fiber_id
    else if c == 112
    then some level
    else if c == 99
    then some logger_name
    else if c == 102
    then some file_name
    else if c == 108
    then some line
    else if c == 109
    then some message
    else if c == 110
    then some new_line
    else none

-- The item that a case pushes; two cases push none.
abbrev pub pushed : Directive → List Item
pushed thread_name = []
pushed logger_name = []
pushed date_time = parser date_time ∷ []
pushed tab = parser tab ∷ []
pushed thread_id = parser thread_id ∷ []
pushed fiber_id = parser fiber_id ∷ []
pushed level = parser level ∷ []
pushed file_name = parser file_name ∷ []
pushed line = parser line ∷ []
pushed message = parser message ∷ []
pushed new_line = parser new_line ∷ []

-- what `strcpy` takes of a string: the bytes before the first 0
unfoldable pub c_string : List ℕ → List ℕ
c_string [] = []
c_string (c ∷ rest) = if c == 0 then [] else c ∷ c_string rest

-- `Item(format_.substr(pos, n))`
abbrev pub text_item : List ℕ → ℕ → ℕ → Item
text_item format pos n = text (c_string (take n (drop pos format)))

-- The length of the text before a directive at `i`: the case of `%d` takes the '%' along.
abbrev pub text_length : Directive → ℕ → ℕ → ℕ
text_length date_time i start = i - 1 - start + 1
text_length tab i start = i - 1 - start
text_length thread_id i start = i - 1 - start
text_length thread_name i start = i - 1 - start
text_length fiber_id i start = i - 1 - start
text_length level i start = i - 1 - start
text_length logger_name i start = i - 1 - start
text_length file_name i start = i - 1 - start
text_length line i start = i - 1 - start
text_length message i start = i - 1 - start
text_length new_line i start = i - 1 - start

-- the local variables of `init`, and `formatSequence_`
pub record ScanState : Type 0 where
  pub fmt_status : Bool
  pub substr_start : ℕ
  pub format_sequence : List Item

-- what a case pushes for the text before it: `if (substr_start <= i-2)`
abbrev pub text_before : List ℕ → ℕ → Directive → ℕ → List Item
text_before format i d start =
    if leb (start + 2) i then text_item format start (text_length d i start) ∷ [] else []

-- one round of the loop, at byte `c` with index `i`
unfoldable pub scan_byte : List ℕ → ℕ → ℕ → ScanState → ScanState
scan_byte format i c s =
    if c == percent
    then record s { fmt_status = true }
    else if s.fmt_status
    then elim (directive_of c) [
      | none ↦ s
      | some d ↦ record {
        fmt_status = false;
        substr_start = i + 1;
        format_sequence = s.format_sequence ++ text_before format i d s.substr_start ++ pushed d;
      }
    ]
    else s

-- the loop, where `rest` is what follows index `i`
unfoldable pub scan : List ℕ → ℕ → List ℕ → ScanState → ScanState
scan format i [] s = s
scan format i (c ∷ rest) s = scan format (i + 1) rest (scan_byte format i c s)

unfoldable pub close : List ℕ → ScanState → List Item
close format s =
    if ltb s.substr_start (length format)
    then s.format_sequence ++ text_item format s.substr_start (length format) ∷ []
    else s.format_sequence

-- `LoggerFormatter::init`
unfoldable pub init : List ℕ → List Item
init format =
    close format
      (scan format 0 format (record { fmt_status = false; substr_start = 0; format_sequence = [] }))
