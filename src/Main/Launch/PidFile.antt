-- ===== src/Main/Launch/PidFile.antt =====
-- The pid file while the server of backend/src/hsed.c runs, and afterwards.
use mathlib.Core.List.{append-nil}
use hsed.Base.{
  sym, ℕ, ◌+◌, ◌≡◌, refl, ap, ◌∙◌, ◌⊎◌, inl, inr, ℤ, pos, ltb_ℤ, ◌≤ℤ◌, negsuc, arith, Bool, true,
  false, ◌==◌, Option, none, some, List, [], ◌∷◌, ◌++◌, if◌then◌else◌,
}
use hsed.Libc.{str_eq}
use hsed.Libc.Strings.{str_eq_refl}
use hsed.Main.{Options}
use hsed.Main.Launch.{
  Answers, Effect, report, set_signals, fork, setsid, chdir, redirect, umask, close, store, serve,
  unlink, detach_streams, second_half, daemonize, write_pidfile, exit_code, greeting, run_server,
  background, launch, started,
}

-- Whether there is a file of this name, and how often the server was run.
abbrev pub after : List ℕ → Bool → ℕ → List Effect → Bool × ℕ
after path b n [] = (b, n)
after path b n (store p text ∷ effects) = after path (if str_eq p path then true else b) n effects
after path b n (unlink false p ∷ effects) = after path b n effects
after path b n (unlink true p ∷ effects) = after path (if str_eq p path then false else b) n effects
after path b n (serve p max_capture threads ∷ effects) = after path b (n + 1) effects
after path b n (report text ∷ effects) = after path b n effects
after path b n (set_signals ∷ effects) = after path b n effects
after path b n (fork ∷ effects) = after path b n effects
after path b n (setsid ∷ effects) = after path b n effects
after path b n (chdir ∷ effects) = after path b n effects
after path b n (redirect ∷ effects) = after path b n effects
after path b n (umask mode ∷ effects) = after path b n effects
after path b n (close fd ∷ effects) = after path b n effects

-- Effects that neither touch the file nor run the server.
abbrev Passes : List Effect → Type 0
Passes effects =
    (path : List ℕ) (b : Bool) (n : ℕ) (later : List Effect)
    → after path b n (effects ++ later) ≡ after path b n later

either-Passes :
    (c : Bool) (xs ys : List Effect) → Passes xs → Passes ys → Passes (if c then xs else ys)
either-Passes true xs ys h k = h
either-Passes false xs ys h k = k

greeting-Passes : (a : Answers) → Passes (greeting a)
unfolding greeting
greeting-Passes a =
    either-Passes (a.euid == 0) _ _ (λ path b n later. refl) (λ path b n later. refl)

detach_streams-Passes : (devnull : ℤ) → Passes (detach_streams devnull)
unfolding detach_streams
detach_streams-Passes devnull =
    either-Passes (ltb_ℤ devnull (pos 0)) _ _ (λ path b n later. refl)
      (either-Passes (ltb_ℤ (pos 2) devnull) _ _ (λ path b n later. refl) (λ path b n later. refl))

-- The process of a daemon, with a session of its own.
abbrev pub IsDaemon : Answers → Type 0
IsDaemon a = (a.first_fork ≡ pos 0) × (pos 0 ≤ℤ a.setsid) × (a.second_fork ≡ pos 0)

-- The process that has started another one in its place.
abbrev pub IsParent : Answers → Type 0
IsParent a =
    (pos 1 ≤ℤ a.first_fork)
    ⊎ ((a.first_fork ≡ pos 0) × (pos 0 ≤ℤ a.setsid) × (pos 1 ≤ℤ a.second_fork))

-- A process that cannot become a daemon.
abbrev pub IsRefused : Answers → Type 0
IsRefused a =
    (a.first_fork ≤ℤ negsuc 0)
    ⊎ ((a.first_fork ≡ pos 0)
        × ((a.setsid ≤ℤ negsuc 0) ⊎ ((pos 0 ≤ℤ a.setsid) × (a.second_fork ≤ℤ negsuc 0))))

-- Which process `daemonize` returns in, and with which code the others end.
abbrev Ends : Answers → List Effect × Option ℕ → Type 0
Ends a (effects, ending) =
    Passes effects
    × (((ending ≡ none) × IsDaemon a)
        ⊎ (((ending ≡ some 0) × IsParent a) ⊎ ((ending ≡ some 1) × IsRefused a)))

module _ (a : Answers) where
  by_test :
      (c : Bool) (r s : List Effect × Option ℕ)
      → (c ≡ true → Ends a r)
      → (c ≡ false → Ends a s)
      → Ends a (if c then r else s)
  by_test true r s h k = h refl
  by_test false r s h k = k refl

  zero_of : (z : ℤ) → ltb_ℤ z (pos 0) ≡ false → ltb_ℤ (pos 0) z ≡ false → z ≡ pos 0
  zero_of (pos n) h k = ap pos (ground arith)
  zero_of (negsuc n) h k = absurd (ground arith)

  second_half-Ends : a.first_fork ≡ pos 0 → pos 0 ≤ℤ a.setsid → Ends a (second_half a)
  unfolding second_half
  second_half-Ends first session =
      by_test (ltb_ℤ a.second_fork (pos 0)) _ _
        (λ fails.
          (λ path b n later. refl, inr (inr (refl, inr (first, inr (session, ground arith))))))
        (λ forks.
          by_test (ltb_ℤ (pos 0) a.second_fork) _ _
            (λ parent.
              (λ path b n later. refl, inr (inl (refl, inr (first, session, ground arith)))))
            (λ child. (
              detach_streams-Passes a.devnull,
              inl (refl, (first, session, zero_of a.second_fork forks child)),
            )))

  daemonize-Ends : Ends a (daemonize a)
  unfolding daemonize
  daemonize-Ends =
      by_test (ltb_ℤ a.first_fork (pos 0)) _ _
        (λ fails. (λ path b n later. refl, inr (inr (refl, inl (ground arith)))))
        (λ forks.
          by_test (ltb_ℤ (pos 0) a.first_fork) _ _
            (λ parent. (λ path b n later. refl, inr (inl (refl, inl (ground arith)))))
            (λ child.
              let first = zero_of a.first_fork forks child in
              by_test (ltb_ℤ a.setsid (pos 0)) _ _
                (λ fails.
                  (λ path b n later. refl, inr (inr (refl, inr (first, inl (ground arith))))))
                (λ leads. second_half-Ends first (ground arith))))

-- Whether the pid file of a daemon is there at the end.
abbrev pub left_over : Answers → Bool → Bool
left_over a before = if a.removes then false else if a.pidfile_opens then true else before

-- In the foreground the server runs once, and the file is as it was; in the background it runs once
-- in the daemon, and not at all in the processes before it.
abbrev pub Launched : Options → Answers → Bool → List Effect × ℕ → Type 0
Launched o a before (effects, code) =
    let outcome = after o.pidfile before 0 effects in
    ((o.foreground ≡ true) × (outcome ≡ (before, 1)) × (code ≡ exit_code a.served))
    ⊎ (((o.foreground ≡ false)
          × IsDaemon a
          × (outcome ≡ (left_over a before, 1))
          × (code ≡ exit_code a.served))
        ⊎ (((o.foreground ≡ false) × IsParent a × (outcome ≡ (before, 0)) × (code ≡ 0))
            ⊎ ((o.foreground ≡ false) × IsRefused a × (outcome ≡ (before, 0)) × (code ≡ 1))))

module _ (o : Options) (a : Answers) (before : Bool) where
  ended :
      (effects : List Effect)
      → Passes effects
      → after o.pidfile before 0 (greeting a ++ effects) ≡ (before, 0)
  ended effects h =
      greeting-Passes a o.pidfile before 0 effects
      ∙ ap (after o.pidfile before 0) (sym (append-nil effects))
      ∙ h o.pidfile before 0 []

  written :
      (opens removes : Bool)
      → after o.pidfile before 0 (
          started true o a (write_pidfile true (record a { pidfile_opens = opens }) o.pidfile)
          ++ run_server o a ∷ unlink removes o.pidfile ∷ [])
        ≡ (if removes then false else if opens then true else before, 1)
  unfolding write_pidfile run_server started
  written true true = rw (str_eq_refl o.pidfile) refl
  written true false = rw (str_eq_refl o.pidfile) refl
  written false true = rw (str_eq_refl o.pidfile) refl
  written false false = refl

  in_background :
      (r : List Effect × Option ℕ)
      → o.foreground ≡ false
      → Ends a r
      → let (effects, code) = background o a r in Launched o a before (greeting a ++ effects, code)
  unfolding background
  in_background (effects, none) behind (h, inl (_, daemon)) = inr (
      inl (
        behind,
        daemon,
        greeting-Passes a o.pidfile before 0 _
            ∙ h o.pidfile before 0 _
            ∙ written a.pidfile_opens a.removes,
        refl,
      ))
  in_background (effects, none) behind (h, inr (inl (e, _))) = absurd (cc e)
  in_background (effects, none) behind (h, inr (inr (e, _))) = absurd (cc e)
  in_background (effects, some code) behind (h, inl (e, _)) = absurd (cc e)
  in_background (effects, some code) behind (h, inr (inl (e, parent))) =
      inr (inr (inl (behind, parent, ended effects h, cc e)))
  in_background (effects, some code) behind (h, inr (inr (e, refused))) =
      inr (inr (inr (behind, refused, ended effects h, cc e)))

  chosen :
      (c : Bool) (r s : List Effect × ℕ)
      → (c ≡ true → Launched o a before r)
      → (c ≡ false → Launched o a before s)
      → Launched o a before (if c then r else s)
  chosen true r s h k = h refl
  chosen false r s h k = k refl

  -- Whatever the system answers: in the foreground the process runs the server once, exits by its
  -- result, and leaves the pid file as it was. In the background the process for which both calls
  -- of `fork` give 0 and `setsid` succeeds does so too, and then the pid file is gone, or, where it
  -- cannot be removed, there if it was or could be written; a process for which `fork` gives
  -- another one ends with code 0, and one for which `fork` or `setsid` fails with code 1, without
  -- the server and with the pid file as it was.
  pub launch-Launched : Launched o a before (launch o a)
  unfolding launch run_server started
  launch-Launched =
      chosen o.foreground _ _
        (λ front. inl (
          front,
          greeting-Passes a o.pidfile before 0 (started false o a [] ++ run_server o a ∷ []),
          refl,
        ))
        (λ behind. in_background (daemonize a) behind (daemonize-Ends a))
