-- ===== src/Tests/Logs.antt =====
-- Tests of the log.
use lte.Base.{List, ◌≡◌, refl, arith, true, some, [], ◌∷◌}
use lte.Logs.{LogLevel, log_success, log_warning, log_error, Logs, LogCall, codes, add_logf}
use lte.Logs.Lines.{lines_from, log_all, log_all_lem}

abbrev noon : LogLevel → LogCall
noon t = record { opened = true; time = codes "Noon"; level = t; message = codes "Hi" }

first_line :
    add_logf (noon log_success) (record { terminal = []; log_file = [] })
    ≡ some
        (record { terminal = codes "Noon [SUCCESS] Hi\n"; log_file = codes "Noon[SUCCESS] Hi\n" })
unfolding add_logf
first_line = refl

abbrev two_calls : List LogCall
two_calls = noon log_error ∷ noon log_warning ∷ []

log_all_lem_example :
    (l : Logs) × (log_all two_calls (record { terminal = []; log_file = [] }) ≡ some l)
    × (lines_from [] l.terminal ≡ codes "Noon [ERROR] Hi" ∷ codes "Noon [WARNING] Hi" ∷ [])
    × (lines_from [] l.log_file ≡ codes "Noon [ERROR] Hi" ∷ codes "Noon[WARNING] Hi" ∷ [])
log_all_lem_example =
    log_all_lem two_calls ((refl, omega arith, omega arith), ((refl, omega arith, omega arith), tt))
