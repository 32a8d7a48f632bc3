-- ===== src/Logs.antt =====
-- logs/logs.c: the lines that `add_logf` writes to the terminal and to a log file.
--
-- Text is its characters' codes. `time` is what `asctime` gives, up to its newline, and `message`
-- what `vprintf` makes of the format and its arguments. `none` is undefined behaviour: the file
-- that `fopen` did not open is written to. A level that is none of the four, for which the
-- `switch` has no case, is left out.
pub mod Lines
use lte.Base.{
  ℕ, zero, suc, Bool, true, false, if◌then◌else◌, Option, none, some, List, [], ◌∷◌, ◌++◌,
}
use Prim.Native.Char.{code}
use Prim.Native.String.{String}

abbrev pub codes : String → List ℕ
codes String.[] = []
codes (String.◌∷◌ c s) = code c ∷ codes s

-- `enum logs`
pub data LogLevel : Type 0 where
  log_success log_warning log_error log_info : LogLevel

-- The tags for the terminal and for the file; the file's first two have no blank in front.
abbrev pub terminal_tag : LogLevel → List ℕ
terminal_tag log_success = codes " [SUCCESS] "
terminal_tag log_warning = codes " [WARNING] "
terminal_tag log_error = codes " [ERROR] "
terminal_tag log_info = codes " [INFO] "

abbrev pub file_tag : LogLevel → List ℕ
file_tag log_success = codes "[SUCCESS] "
file_tag log_warning = codes "[WARNING] "
file_tag log_error = codes " [ERROR] "
file_tag log_info = codes " [INFO] "

pub record Logs : Type 0 where
  pub terminal : List ℕ
  pub log_file : List ℕ

pub record LogCall : Type 0 where
  pub opened : Bool
  pub time : List ℕ
  pub level : LogLevel
  pub message : List ℕ

abbrev pub newline : ℕ
newline = 10

abbrev pub line : List ℕ → LogCall → List ℕ
line tag c = c.time ++ (tag ++ c.message)

unfoldable pub add_logf : LogCall → Logs → Option Logs
add_logf c l =
    if c.opened
    then some (record {
      terminal = l.terminal ++ (line (terminal_tag c.level) c ++ newline ∷ []);
      log_file = l.log_file ++ (line (file_tag c.level) c ++ newline ∷ []);
    })
    else none
