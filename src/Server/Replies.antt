-- ===== src/Server/Replies.antt =====
-- What `handle_scan` of backend/src/server.c sends.
use hsed.Base.{ℕ, ◌≡◌, sym, ap, ◌∙◌, ℤ, pos, ◌+ℤ◌, true, List, [], ◌∷◌, ◌++◌, length, arith, map}
use hsed.Outcome.{ok}
use hsed.Libc.{to_i64, add_long}
use hsed.Libc.Numbers.{IsLong}
use hsed.Libc.Longs.{add_long-IsLong, to_i64-plus_zero, to_i64-zero_plus, to_i64-wraps_left}
use hsed.Entry.{Entry}
use hsed.Protocol.{format_entry, linef}
use hsed.Scan.OnePid.Reported.{total_size}
use hsed.Server.{Services, ok, end_text, entry_buffer, send_entries, handle_scan}

module _ (S : Services) where
  open S use {World}

  -- The lines sent one after the other, whatever becomes of them.
  abbrev pub send_all : World → List (List ℕ) → World
  send_all w [] = w
  send_all w (s ∷ ss) = send_all (S.send w s).0 ss

  -- The lines of a scan: one for each entry, then the number of entries and the sum of
  -- their sizes, as a `long long` that wraps around.
  abbrev pub scan_lines : List Entry → List (List ℕ)
  scan_lines es =
      map (format_entry entry_buffer) es
      ++ linef (end_text (length es) (to_i64 (total_size es))) ∷ []

  send_entries_lem :
      ((w : World) (s : List ℕ) → (S.send w s).1 ≡ true)
      → (w : World) (es : List Entry) (count : ℕ) (total : ℤ) → IsLong total
      → send_entries S w es count total
        ≡ send_all w (
            map (format_entry entry_buffer) es
            ++ linef (end_text count (to_i64 (total +ℤ total_size es))) ∷ [])
  unfolding send_entries total_size
  send_entries_lem sends w [] count total h =
      ap (λ t. (S.send w (linef (end_text count t))).0) (sym (to_i64-plus_zero total h))
  send_entries_lem sends w (e ∷ es) count total h = rw (sends w (format_entry entry_buffer e)) (
      send_entries_lem sends (S.send w (format_entry entry_buffer e)).0 es count
        (add_long total e.size) (add_long-IsLong total e.size)
      ∙ ap
          (λ t.
            send_all (S.send w (format_entry entry_buffer e)).0
              (map (format_entry entry_buffer) es ++ linef (end_text count t) ∷ []))
          (to_i64-wraps_left total e.size (total_size es)))

  -- Where every line can be sent and the scan succeeds, `handle_scan` sends a line for each entry, in
  -- the order of the scan, and then a line with the number of the entries and the sum of their sizes,
  -- as a `long long` that wraps around.
  pub handle_scan_lem :
      ((w : World) (s : List ℕ) → (S.send w s).1 ≡ true)
      → (w : World) (min_size only_pid : ℤ) (uid_filter : ℕ) (threads : ℤ) (es : List Entry)
      → (S.scan w min_size only_pid uid_filter threads).1 ≡ ok es
      → handle_scan S w min_size only_pid uid_filter threads
        ≡ send_all (S.scan w min_size only_pid uid_filter threads).0 (scan_lines es)
  unfolding handle_scan
  handle_scan_lem sends w min_size only_pid uid_filter threads es e =
      rw (e, handle_scan)
        (send_entries_lem sends (S.scan w min_size only_pid uid_filter threads).0 es (length es)
            (pos 0) (omega arith)
          ∙ ap
              (λ t.
                send_all (S.scan w min_size only_pid uid_filter threads).0
                  (map (format_entry entry_buffer) es ++ linef (end_text (length es) t) ∷ []))
              (to_i64-zero_plus (total_size es)))
