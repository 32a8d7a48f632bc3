-- ===== src/Logs/Lines.antt =====
-- What stands in the log after any calls, read line by line.
use mathlib.Core.List.{append-nil, append_assoc}
use lte.Base.{
  ℕ, ◌≡◌, ◌≢◌, refl, ap, ◌∙◌, arith, ◌==◌, true, false, if◌then◌else◌, Option, none, some, List, [],
  ◌∷◌, ◌++◌,
}
use lte.Logs.{
  LogLevel, log_success, log_warning, log_error, log_info, Logs, LogCall, newline, codes,
  terminal_tag, file_tag, line, add_logf,
}

-- The lines of a text, as a reader of the log finds them; `current` is the start of the line.
abbrev pub lines_from : List ℕ → List ℕ → List (List ℕ)
lines_from current [] = []
lines_from current (x ∷ xs) =
    let rest = lines_from [] xs in
    let more = lines_from (current ++ x ∷ []) xs in if x == newline then current ∷ rest else more

abbrev pub NoNewline : List ℕ → Type 0
NoNewline [] = Unit
NoNewline (x ∷ xs) = (x ≢ newline) × NoNewline xs

-- The calls succeed in opening the file, and log one line each.
abbrev pub AreLines : List LogCall → Type 0
AreLines [] = Unit
AreLines (c ∷ cs) = ((c.opened ≡ true) × NoNewline c.time × NoNewline c.message) × AreLines cs

abbrev pub and_log : (Logs → Option Logs) → Option Logs → Option Logs
and_log next none = none
and_log next (some l) = next l

abbrev pub log_all : List LogCall → Logs → Option Logs
log_all [] l = some l
log_all (c ∷ cs) l = and_log (log_all cs) (add_logf c l)

NoNewline-append : (xs ys : List ℕ) → NoNewline xs → NoNewline ys → NoNewline (xs ++ ys)
NoNewline-append [] ys p q = q
NoNewline-append (x ∷ xs) ys p q = (p.0, NoNewline-append xs ys p.1 q)

lines_from-append :
    (current ys xs : List ℕ)
    → NoNewline ys
    → lines_from current (ys ++ (newline ∷ xs)) ≡ (current ++ ys) ∷ lines_from [] xs
lines_from-append current [] xs p = rw append-nil
lines_from-append current (y ∷ ys) xs p =
    let other : (y == newline) ≡ false = ground arith in
    rw other (lines_from-append (current ++ y ∷ []) ys xs p.1 ∙ rw append_assoc refl)

-- What a line of the terminal and of the file says, for each level: the time, the tag between
-- brackets with a blank on either side, and the message. In the file the tags of a success and of
-- a warning follow the time without a blank.
abbrev pub terminal_line : LogLevel → List ℕ → List ℕ → List ℕ
terminal_line log_success time message = time ++ (codes " [SUCCESS] " ++ message)
terminal_line log_warning time message = time ++ (codes " [WARNING] " ++ message)
terminal_line log_error time message = time ++ (codes " [ERROR] " ++ message)
terminal_line log_info time message = time ++ (codes " [INFO] " ++ message)

abbrev pub file_line : LogLevel → List ℕ → List ℕ → List ℕ
file_line log_success time message = time ++ (codes "[SUCCESS] " ++ message)
file_line log_warning time message = time ++ (codes "[WARNING] " ++ message)
file_line log_error time message = time ++ (codes " [ERROR] " ++ message)
file_line log_info time message = time ++ (codes " [INFO] " ++ message)

terminal_line_lem :
    (c : LogCall) → line (terminal_tag c.level) c ≡ terminal_line c.level c.time c.message
terminal_line_lem c = go c.level refl
  where
    go :
        (t : LogLevel)
        → c.level ≡ t
        → line (terminal_tag c.level) c ≡ terminal_line c.level c.time c.message
    go log_success e = rw e refl
    go log_warning e = rw e refl
    go log_error e = rw e refl
    go log_info e = rw e refl

file_line_lem : (c : LogCall) → line (file_tag c.level) c ≡ file_line c.level c.time c.message
file_line_lem c = go c.level refl
  where
    go :
        (t : LogLevel)
        → c.level ≡ t
        → line (file_tag c.level) c ≡ file_line c.level c.time c.message
    go log_success e = rw e refl
    go log_warning e = rw e refl
    go log_error e = rw e refl
    go log_info e = rw e refl

after_tag :
    (time tag message : List ℕ)
    → NoNewline tag
    → NoNewline time
    → NoNewline message
    → NoNewline (time ++ (tag ++ message))
after_tag time tag message plain p q =
    NoNewline-append time _ p (NoNewline-append tag message plain q)

terminal_line-NoNewline :
    (t : LogLevel) (time message : List ℕ)
    → NoNewline time
    → NoNewline message
    → NoNewline (terminal_line t time message)
terminal_line-NoNewline log_success time message p q =
    after_tag time (codes " [SUCCESS] ") message (omega arith) p q
terminal_line-NoNewline log_warning time message p q =
    after_tag time (codes " [WARNING] ") message (omega arith) p q
terminal_line-NoNewline log_error time message p q =
    after_tag time (codes " [ERROR] ") message (omega arith) p q
terminal_line-NoNewline log_info time message p q =
    after_tag time (codes " [INFO] ") message (omega arith) p q

file_line-NoNewline :
    (t : LogLevel) (time message : List ℕ)
    → NoNewline time
    → NoNewline message
    → NoNewline (file_line t time message)
file_line-NoNewline log_success time message p q =
    after_tag time (codes "[SUCCESS] ") message (omega arith) p q
file_line-NoNewline log_warning time message p q =
    after_tag time (codes "[WARNING] ") message (omega arith) p q
file_line-NoNewline log_error time message p q =
    after_tag time (codes " [ERROR] ") message (omega arith) p q
file_line-NoNewline log_info time message p q =
    after_tag time (codes " [INFO] ") message (omega arith) p q

module _ (tell : LogLevel → List ℕ → List ℕ → List ℕ) where
  abbrev pub written : List LogCall → List ℕ
  written [] = []
  written (c ∷ cs) = (tell c.level c.time c.message ++ newline ∷ []) ++ written cs

  -- One line for each call.
  abbrev pub lines : List LogCall → List (List ℕ)
  lines [] = []
  lines (c ∷ cs) = tell c.level c.time c.message ∷ lines cs

  lines_from-written :
      (cs : List LogCall)
      → ((t : LogLevel) (time message : List ℕ)
          → NoNewline time
          → NoNewline message
          → NoNewline (tell t time message))
      → AreLines cs
      → lines_from [] (written cs) ≡ lines cs
  lines_from-written [] plain all = refl
  lines_from-written (c ∷ cs) plain all = rw append_assoc (
      lines_from-append [] (tell c.level c.time c.message) (written cs)
        (plain c.level c.time c.message (all.0).1 (all.0).2)
      ∙ ap (λ ls. tell c.level c.time c.message ∷ ls) (lines_from-written cs plain all.1))

log_all-written :
    (cs : List LogCall) (l : Logs)
    → AreLines cs
    → log_all cs l
      ≡ some (record {
        terminal = l.terminal ++ written terminal_line cs;
        log_file = l.log_file ++ written file_line cs;
      })
unfolding add_logf
log_all-written [] l all = rw (append-nil l.terminal, append-nil l.log_file)
log_all-written (c ∷ cs) l all =
    rw ((all.0).0, terminal_line_lem c, file_line_lem c)
      (log_all-written cs _ all.1 ∙ simp (append_assoc))

-- After any calls that find the log file, with no newline in the time or the message: the file
-- and the terminal have one line for each call, in order, that is its time, the tag of its level
-- and its message. The tags are [SUCCESS], [WARNING], [ERROR] and [INFO], with a blank on either
-- side; in the file, that of a success or a warning has no blank in front.
pub log_all_lem :
    (cs : List LogCall)
    → AreLines cs
    → (l : Logs) × (log_all cs (record { terminal = []; log_file = [] }) ≡ some l)
      × (lines_from [] l.terminal ≡ lines terminal_line cs)
      × (lines_from [] l.log_file ≡ lines file_line cs)
log_all_lem cs all = (
  record { terminal = written terminal_line cs; log_file = written file_line cs },
  log_all-written cs _ all,
  lines_from-written terminal_line cs terminal_line-NoNewline all,
  lines_from-written file_line cs file_line-NoNewline all,
)
