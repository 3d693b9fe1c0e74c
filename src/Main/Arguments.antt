-- ===== src/Main/Arguments.antt =====
-- backend/src/hsed.c: options that are written out as arguments and parsed again.
use hsed.Base.{
  ℕ, ◌<◌, ◌^◌, ◌≡◌, refl, ap, ◌∙◌, Bool, true, false, Option, none, some, List, [], ◌∷◌, ◌++◌,
  codes, show_ℕ, show_ℤ,
}
use hsed.Libc.{str_eq}
use hsed.Libc.Numbers.{
  IsLong, IsInt, strtol-show_ℤ, to_i32-strtol-show_ℤ, strtoul-show_ℕ, strtoul_uid-show_ℕ,
}
use hsed.Main.{Options, defaults, set_flag, set_value, parsed, parse_args}

-- Values that fit the types of their variables.
pub record InRange (o : Options) : Type 0 where
  pub captures : o.max_capture < 2 ^ 64
  pub sizes : IsLong o.min_size
  pub users : o.uid_filter < 2 ^ 32
  pub workers : IsInt o.scan_threads

flag : Bool → List ℕ → List (List ℕ)
flag false name = []
flag true name = name ∷ []

socket_args : Option (List ℕ) → List (List ℕ)
socket_args none = []
socket_args (some path) = codes "--socket" ∷ path ∷ []

value_args : Options → List (List ℕ)
value_args o =
    codes "--pidfile"
    ∷ o.pidfile
    ∷ codes "--max-capture"
    ∷ show_ℕ o.max_capture
    ∷ codes "--min-size"
    ∷ show_ℤ o.min_size
    ∷ codes "--uid"
    ∷ show_ℕ o.uid_filter
    ∷ codes "--scan-threads"
    ∷ show_ℤ o.scan_threads
    ∷ []

-- A command line that asks for the options.
unfoldable pub render : Options → List (List ℕ)
unfolding flag socket_args value_args
render o =
    flag o.foreground (codes "--foreground")
    ++ (flag o.scan_once (codes "--scan-once")
        ++ (flag o.stats_once (codes "--stats-once")
            ++ (socket_args o.socket_path ++ value_args o)))

-- The values, read back into any options.
value_args-parsed :
    (o d : Options)
    → InRange o
    → parse_args (value_args o) d
      ≡ parsed (record d {
        pidfile = o.pidfile;
        max_capture = o.max_capture;
        min_size = o.min_size;
        uid_filter = o.uid_filter;
        scan_threads = o.scan_threads;
      })
unfolding parse_args set_flag set_value str_eq value_args
value_args-parsed o d h =
    rw
      (
        strtoul-show_ℕ o.max_capture h.captures,
        strtol-show_ℤ o.min_size h.sizes,
        strtoul_uid-show_ℕ o.uid_filter h.users,
        to_i32-strtol-show_ℤ o.scan_threads h.workers,
      )
      refl

socket_args-parsed :
    (o : Options) (path : Option (List ℕ)) (d : Options)
    → InRange o
    → d.socket_path ≡ none
    → parse_args (socket_args path ++ value_args o) d
      ≡ parsed (record o {
        foreground = d.foreground;
        scan_once = d.scan_once;
        stats_once = d.stats_once;
        socket_path = path;
      })
unfolding parse_args set_flag set_value str_eq value_args socket_args
socket_args-parsed o none d h e = value_args-parsed o d h ∙ rw e refl
socket_args-parsed o (some path) d h e =
    value_args-parsed o (record d { socket_path = some path }) h

foreground-parsed :
    (b : Bool) (args : List (List ℕ)) (d : Options)
    → d.foreground ≡ false
    → parse_args (flag b (codes "--foreground") ++ args) d
      ≡ parse_args args (record d { foreground = b })
unfolding parse_args set_flag str_eq flag
foreground-parsed false args d e = ap (λ b. parse_args args (record d { foreground = b })) e
foreground-parsed true [] d e = refl
foreground-parsed true (arg ∷ args) d e = refl

scan_once-parsed :
    (b : Bool) (args : List (List ℕ)) (d : Options)
    → d.scan_once ≡ false
    → parse_args (flag b (codes "--scan-once") ++ args) d
      ≡ parse_args args (record d { scan_once = b })
unfolding parse_args set_flag str_eq flag
scan_once-parsed false args d e = ap (λ b. parse_args args (record d { scan_once = b })) e
scan_once-parsed true [] d e = refl
scan_once-parsed true (arg ∷ args) d e = refl

stats_once-parsed :
    (b : Bool) (args : List (List ℕ)) (d : Options)
    → d.stats_once ≡ false
    → parse_args (flag b (codes "--stats-once") ++ args) d
      ≡ parse_args args (record d { stats_once = b })
unfolding parse_args set_flag str_eq flag
stats_once-parsed false args d e = ap (λ b. parse_args args (record d { stats_once = b })) e
stats_once-parsed true [] d e = refl
stats_once-parsed true (arg ∷ args) d e = refl

-- Options whose numbers fit their types come back from the command line that asks for them.
pub parse_args-render : (o : Options) → InRange o → parse_args (render o) defaults ≡ parsed o
unfolding render
parse_args-render o h =
    let rest = socket_args o.socket_path ++ value_args o in
    let once = flag o.scan_once (codes "--scan-once") in
    let stats = flag o.stats_once (codes "--stats-once") in
    let first = record defaults { foreground = o.foreground } in
    let second = record first { scan_once = o.scan_once } in
    foreground-parsed o.foreground (once ++ (stats ++ rest)) defaults refl
    ∙ scan_once-parsed o.scan_once (stats ++ rest) first refl
    ∙ stats_once-parsed o.stats_once rest second refl
    ∙ socket_args-parsed o o.socket_path (record second { stats_once = o.stats_once }) h refl
