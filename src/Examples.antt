-- ===== src/Examples.antt =====
-- Tests of the log functions.
use hsed.Base.{◌≡◌, refl, true, false, [], ◌∷◌, codes}
use hsed.Util.Log.{to_syslog, to_stderr, log, log_err}

log_err_test : log_err false (codes "no") ≡ to_stderr (codes "[error] no\n") ∷ []
log_err_test = refl

log_test : log true (codes "up") ≡ to_syslog 6 (codes "up") ∷ []
log_test = refl
