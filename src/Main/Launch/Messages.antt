-- ===== src/Main/Launch/Messages.antt =====
-- Where the messages of backend/src/hsed.c go around the server.
use mathlib.Core.List.{append-nil}
use hsed.Base.{
  ℕ, ◌≡◌, refl, sym, ap, ◌∙◌, ℤ, pos, ltb_ℤ, Bool, true, false, not, ◌&&◌, ◌==◌, Option, none, some,
  List, [], ◌∷◌, ◌++◌, Bool-cases, inl, inr, if◌then◌else◌,
}
use hsed.Util.Log.{opened, to_syslog, to_stderr}
use hsed.Main.{Options}
use hsed.Main.Launch.{
  Answers, Effect, report, set_signals, fork, setsid, chdir, redirect, umask, close, store, serve,
  unlink, perror, detach_streams, second_half, daemonize, write_pidfile, greeting, run_server,
  started, background, launch,
}

-- Each message finds a reader: one for stderr is written before the streams are redirected, and one
-- for the system's log after that was opened.
abbrev pub heard : Bool → Bool → List Effect → Bool
heard redirected open_log [] = true
heard redirected open_log (redirect ∷ effects) = heard true open_log effects
heard redirected open_log (report (opened name) ∷ effects) = heard redirected true effects
heard redirected open_log (report (to_syslog priority s) ∷ effects) =
    open_log && heard redirected open_log effects
heard redirected open_log (report (to_stderr s) ∷ effects) =
    not redirected && heard redirected open_log effects
heard redirected open_log (store p text ∷ effects) = heard redirected open_log effects
heard redirected open_log (unlink removes p ∷ effects) = heard redirected open_log effects
heard redirected open_log (serve p max_capture threads ∷ effects) =
    heard redirected open_log effects
heard redirected open_log (set_signals ∷ effects) = heard redirected open_log effects
heard redirected open_log (fork ∷ effects) = heard redirected open_log effects
heard redirected open_log (setsid ∷ effects) = heard redirected open_log effects
heard redirected open_log (chdir ∷ effects) = heard redirected open_log effects
heard redirected open_log (umask mode ∷ effects) = heard redirected open_log effects
heard redirected open_log (close fd ∷ effects) = heard redirected open_log effects

-- Effects in front of others that are heard whether the streams are redirected or not.
abbrev Leads : List Effect → Type 0
Leads effects =
    (later : List Effect)
    → ((redirected : Bool) → heard redirected false later ≡ true)
    → heard false false (effects ++ later) ≡ true

either-Leads : (c : Bool) (xs ys : List Effect) → Leads xs → Leads ys → Leads (if c then xs else ys)
either-Leads true xs ys h k = h
either-Leads false xs ys h k = k

abbrev LeadsTo : List Effect × Option ℕ → Type 0
LeadsTo r = Leads r.0

either-LeadsTo :
    (c : Bool) (r s : List Effect × Option ℕ) → LeadsTo r → LeadsTo s → LeadsTo (if c then r else s)
either-LeadsTo true r s h k = h
either-LeadsTo false r s h k = k

detach_streams-Leads : (devnull : ℤ) → Leads (detach_streams devnull)
unfolding detach_streams
detach_streams-Leads devnull =
    either-Leads (ltb_ℤ devnull (pos 0)) _ _ (λ later h. h false)
      (either-Leads (ltb_ℤ (pos 2) devnull) _ _ (λ later h. h true) (λ later h. h true))

second_half-LeadsTo : (a : Answers) → LeadsTo (second_half a)
unfolding second_half perror
second_half-LeadsTo a =
    either-LeadsTo (ltb_ℤ a.second_fork (pos 0)) _ _ (λ later h. h false)
      (either-LeadsTo (ltb_ℤ (pos 0) a.second_fork) _ _ (λ later h. h false)
        (detach_streams-Leads a.devnull))

daemonize-LeadsTo : (a : Answers) → LeadsTo (daemonize a)
unfolding daemonize perror
daemonize-LeadsTo a =
    either-LeadsTo (ltb_ℤ a.first_fork (pos 0)) _ _ (λ later h. h false)
      (either-LeadsTo (ltb_ℤ (pos 0) a.first_fork) _ _ (λ later h. h false)
        (either-LeadsTo (ltb_ℤ a.setsid (pos 0)) _ _ (λ later h. h false) (second_half-LeadsTo a)))

greeted :
    (a : Answers) (later : List Effect)
    → heard false false later ≡ true
    → heard false false (greeting a ++ later) ≡ true
unfolding greeting
greeted a later h = elim (Bool-cases (a.euid == 0)) [
  | inl root ↦ rw root h
  | inr other ↦ rw other h
]

in_background :
    (o : Options) (a : Answers) (r : List Effect × Option ℕ)
    → LeadsTo r
    → heard false false (background o a r).0 ≡ true
unfolding background started write_pidfile run_server
in_background o a (effects, some code) h =
    ap (heard false false) (sym (append-nil effects)) ∙ h [] (λ redirected. refl)
in_background o a (effects, none) h = h _ (written a.pidfile_opens)
  where
    written :
        (opens redirected : Bool)
        → heard redirected false (
            started true o a (write_pidfile true (record a { pidfile_opens = opens }) o.pidfile)
            ++ run_server o a ∷ unlink a.removes o.pidfile ∷ [])
          ≡ true
    written true redirected = refl
    written false redirected = refl

-- Whatever the system answers, no message of the start is lost: in the foreground and before the
-- streams are redirected they go to stderr, and after that to the system's log, which was opened.
pub heard-launch : (o : Options) (a : Answers) → heard false false (launch o a).0 ≡ true
unfolding launch started run_server
heard-launch o a = elim (Bool-cases o.foreground) [
  | inl front ↦ rw (front, launch) (greeted a _ refl)
  | inr behind ↦
      rw (behind, launch) (greeted a _ (in_background o a (daemonize a) (daemonize-LeadsTo a)))
]
