-- ===== src/Util/Log.antt =====
-- backend/src/util.c: `hsed_log_init`, `hsed_log` and `hsed_log_err`. The flag `g_use_syslog` is an
-- argument, and what is written is a list.
use hsed.Base.{ℕ, Bool, true, false, List, [], ◌∷◌, ◌++◌, codes}

-- `openlog` with a name, `syslog` with a priority, and text on stderr.
pub data Logged : Type 0 where
  opened : List ℕ → Logged
  to_syslog : ℕ → List ℕ → Logged
  to_stderr : List ℕ → Logged

-- LOG_INFO and LOG_ERR.
abbrev pub log_info : ℕ
log_info = 6

abbrev pub log_error : ℕ
log_error = 3

-- The flag is the argument from here on.
abbrev pub log_init : Bool → List Logged
log_init true = opened (codes "hsed") ∷ []
log_init false = []

abbrev pub log : Bool → List ℕ → List Logged
log true message = to_syslog log_info message ∷ []
log false message = to_stderr (message ++ 10 ∷ []) ∷ []

abbrev pub log_err : Bool → List ℕ → List Logged
log_err true message = to_syslog log_error message ∷ []
log_err false message = to_stderr (codes "[error] " ++ (message ++ 10 ∷ [])) ∷ []
