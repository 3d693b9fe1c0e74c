-- ===== src/Daemon/Read.antt =====
-- The answer to a scan, as a client reads it.
use mathlib.Core.List.{Perm, Permᴰ}
use mathlib.Core.Logic.{∥∥₁_elim}
use mathlib.Core.HLevel.{hedberg}
use native.Mathlib.Decide.{ℕ_discrete}
use hsed.Base.{
  ℕ, ◌<◌, ◌^◌, ◌≡◌, refl, sym, subst, ap, ap₂, ◌∙◌, ◌⊎◌, inl, inr, ℤ, true, Option, some, List, [],
  ◌∷◌, ◌++◌, map, All, codes, length, pos, negsuc, ltb_ℤ, Bool-cases, All-append, arith,
}
use hsed.Libc.Longs.{to_i64_lem}
use hsed.Entry.{Entry}
use hsed.Libc.Numbers.{IsLong, IsInt}
use hsed.Protocol.{format_entry, linef}
use hsed.Protocol.Object.{Members, read_object}
use hsed.Protocol.Object.EntryLine.{of_type, entry_members, IsEntry, read_object-entry}
use hsed.Scan.System.{System}
use hsed.Scan.OnePid.{Query}
use hsed.Scan.OnePid.Reported.{reported, total_size, LacksMemory}
use hsed.Scan.OnePid.Fitting.{Fits, reported-IsEntry}
use hsed.Scan.Threads.Gathered.{gather_pids-All}
use hsed.Scan.Threads.Counting.{scan_all}
use hsed.Scan.Run.Results.{Descending, scope, length-Perm, total_size-Perm}
use hsed.Server.{Services, Settings, goes_on, error_text, reply, entry_buffer, end_text}
use hsed.Server.Recv.{RecvEvent}
use hsed.Server.Loop.{handle_line}
use hsed.Server.Commands.{scan_command}
use hsed.Server.Replies.{send_all, scan_lines}
use hsed.Server.ReadBack.{count_members, replies_read}
use hsed.Daemon.{Outside, services}
use hsed.Daemon.Commands.{asked, handle_line-scan-answered}

readings_discrete : Discrete (List (Option Members))
readings_discrete = hlevel ℕ_discrete

All-Permᴰ : {es fs : List Entry} → Permᴰ es fs → All IsEntry fs → All IsEntry es
All-Permᴰ Permᴰ.nil h = h
All-Permᴰ (Permᴰ.cons e p) h = (subst IsEntry (sym e) h.0, All-Permᴰ p h.1)
All-Permᴰ (Permᴰ.swap e f) h = (subst IsEntry (sym e) h.1.0, (subst IsEntry (sym f) h.0, h.1.1))
All-Permᴰ (Permᴰ.trans p q) h = All-Permᴰ p (All-Permᴰ q h)

-- What a client gets from the lines of a scan of these entries.
abbrev pub answers : List Entry → List (Option Members)
answers es =
    map (λ e. some (of_type (codes "entry") ∷ entry_members e)) es
    ++ some (of_type (codes "end") ∷ count_members (length es) (total_size es)) ∷ []

module _ (S : Services) where
  entries_read :
      (es : List Entry) (last : List ℕ)
      → All IsEntry es
      → map read_object (map (format_entry entry_buffer) es ++ last ∷ [])
        ≡ map (λ e. some (of_type (codes "entry") ∷ entry_members e)) es ++ read_object last ∷ []
  entries_read [] last h = refl
  entries_read (e ∷ es) last h = ap₂ ◌∷◌ (read_object-entry e h.0) (entries_read es last h.1)

  scan_lines_read :
      (es : List Entry)
      → All IsEntry es
      → length es < 2 ^ 64
      → IsLong (total_size es)
      → map read_object (scan_lines S es) ≡ answers es
  scan_lines_read es h k l =
      entries_read es _ h
      ∙ ap (λ t. map (λ e. some (of_type (codes "entry") ∷ entry_members e)) es ++ t ∷ [])
          (ap (λ t. read_object (linef (end_text (length es) t))) (to_i64_lem (total_size es) l)
            ∙ (replies_read (length es) (total_size es) (total_size es) [] k l l).0)

-- Entries that fit their lines, and whose number and sum fit the last line.
record AllFit (es : List Entry) : Type 0 where
  entries : All IsEntry es
  number : length es < 2 ^ 64
  total : IsLong (total_size es)

scan_lines_Perm :
    (S : Services) (es fs : List Entry)
    → Perm es fs
    → AllFit fs
    → map read_object (scan_lines S es) ≡ answers es
scan_lines_Perm S es fs p h = ∥∥₁_elim p (hedberg readings_discrete _ _) (λ q.
    scan_lines_read S es (All-Permᴰ q h.entries)
      (subst (λ n. n < 2 ^ 64) (sym (length-Perm es fs p)) h.number)
      (subst IsLong (sym (total_size-Perm es fs p)) h.total))

int_IsLong : (z : ℤ) → IsInt z → IsLong z
int_IsLong (pos n) h = omega arith
int_IsLong (negsuc n) h = omega arith

same_list : {pids rest : List ℤ} → some pids ≡ some rest → pids ≡ rest
same_list e = cc

-- The processes that a scan looks at have numbers in range.
scope-IsLong :
    (sys : System) (only_pid : ℤ) (pids : List ℤ)
    → IsInt only_pid
    → scope sys only_pid ≡ some pids
    → All IsLong pids
scope-IsLong sys only_pid pids h e = elim (Bool-cases (ltb_ℤ (pos 0) only_pid)) [
  | inl one ↦ subst (All IsLong) (same_list (rw one at e)) (int_IsLong only_pid h, tt)
  | inr every ↦ gather_pids-All sys pids (rw every at e)
]

scan_all-IsEntry :
    (sys : System) (q : Query) (pids : List ℤ)
    → Fits sys
    → All IsLong pids
    → All IsEntry (scan_all sys q pids)
unfolding scan_all
scan_all-IsEntry sys q [] fits h = tt
scan_all-IsEntry sys q (pid ∷ pids) fits h =
    All-append _ (reported sys q pid) (scan_all sys q pids) (reported-IsEntry sys fits q pid h.0)
      (scan_all-IsEntry sys q pids fits h.1)

module _ (O : Outside) (cfg : Settings) (w : O.kernel.World) (events : List RecvEvent) where
  -- Where every line can be sent, the names of the processes can be read, the texts on the machine
  -- hold no control bytes but tab, newline and return, names of processes have at most 63 bytes and
  -- numbers are in the ranges of their types, and the number of the entries and the sum of their
  -- sizes are in range, the line `SCAN min_size only_pid` that the client prints, with numbers in
  -- range, is answered by lines from which a JSON reader gets the fields of these entries, all of
  -- them and largest first, and then their number and the sum of their sizes; only where some
  -- allocation fails, the answer is an error line.
  pub handle_line-scan-read :
      ((w : O.kernel.World) (s : List ℕ) → (O.send w s).1 ≡ true)
      → (min_size only_pid : ℤ) (pids : List ℤ) → IsLong min_size
      → IsInt only_pid
      → scope (O.system w) only_pid ≡ some pids
      → Fits (O.system w)
      → length (scan_all (O.system w) (asked min_size) pids) < 2 ^ 64
      → IsLong (total_size (scan_all (O.system w) (asked min_size) pids))
      → ((es : List Entry) × (lines : List (List ℕ)) × (handle_line
              (services O)
              cfg
              w
              events
              (scan_command min_size only_pid)
            ≡ goes_on (send_all (services O) w lines) events)
          × (map read_object lines ≡ answers es)
          × Perm es (scan_all (O.system w) (asked min_size) pids)
          × Descending es)
        ⊎ ((handle_line (services O) cfg w events (scan_command min_size only_pid)
              ≡ goes_on
                  (reply (services O) w (error_text (codes "scan failed: " ++ O.scan_error w)))
                  events)
            × LacksMemory (O.system w))
  handle_line-scan-read sends min_size only_pid pids h k inside fits number total =
      let small = scope-IsLong (O.system w) only_pid pids k inside in
      let fit : AllFit (scan_all (O.system w) (asked min_size) pids) = record {
        entries = scan_all-IsEntry (O.system w) (asked min_size) pids fits small;
        number = number;
        total = total;
      } in
      elim (handle_line-scan-answered O cfg w events sends min_size only_pid pids h k inside) [
        | inl (es, answered, perm, descending) ↦ inl (
          es,
          scan_lines (services O) es,
          answered,
          scan_lines_Perm (services O) es _ perm fit,
          perm,
          descending,
        )
        | inr failed ↦ inr failed
      ]
