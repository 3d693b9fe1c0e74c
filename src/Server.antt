-- ===== src/Server.antt =====
-- backend/src/server.c: the handlers of the commands and the loop of a connection. What they call
-- in the other parts enters as the record `Services`, whose operations act on a world; the bytes of
-- the client are a list of events, which the connection consumes line by line.
pub mod Recv
pub mod Stream
pub mod Commands
pub mod Replies
pub mod ReadBack
pub mod Loop
pub mod Accept
mod Examples
use hsed.Base.{
  ℕ, zero, suc, ◌+◌, ◌*◌, ℤ, pos, ◌+ℤ◌, Bool, true, false, ◌||◌, Option, none, some, List, [], ◌∷◌,
  ◌++◌, length, codes, c_string, show_ℕ, show_ℤ, if◌then◌else◌,
}
use hsed.Outcome.{Outcome, ok, err}
use hsed.Libc.{strtok, same_word, strtol, to_i32, strtoul_uid, add_long}
use hsed.Entry.{Entry, Stats, path_max, name_max, cmdline_max, uid_any}
use hsed.Protocol.{json_escape, Escaped, text, untouched, fault, escaped_in, format_entry, linef}
use Recv.{RecvEvent, Received, line, ended, waiting, recv_line}

-- `hsed_trace_fd` has returned, or it still follows its threads when what the system and the client
-- do so far is over.
pub data Traced : Type 0 where
  returned : Outcome (Unit {0}) → Traced
  tracing : Traced

-- What the handlers call. `send` is `hsed_send_line` on the connection's socket and tells whether it
-- returned 0. A scan returns its entries, or -1 with `strerror(errno)`. A trace sends lines of its
-- own, and may consume input of the client, since it looks for a stop request.
pub record Services : Type 1 where
  pub World : Type 0
  pub send : World → List ℕ → World × Bool
  pub scan : World → ℤ → ℤ → ℕ → ℤ → World × Outcome (List Entry)
  pub scan_stats : World → ℤ → ℕ → ℤ → World × Outcome Stats
  pub truncate_fd : World → ℤ → ℤ → World × Outcome ℤ
  pub send_signal : World → ℤ → ℕ → World × Outcome (Unit {0})
  pub trace_fd : World → List RecvEvent → ℤ → ℤ → ℕ → (World × List RecvEvent) × Traced

-- `conn_args_t` less the socket.
pub record Settings : Type 0 where
  pub max_capture : ℕ
  pub scan_threads : ℤ

abbrev pub entry_buffer : ℕ
entry_buffer = path_max * 2 + cmdline_max * 2 + name_max * 4

abbrev pub sighup : ℕ
sighup = 1

abbrev pub sigkill : ℕ
sigkill = 9

-- The texts that the handlers format.
abbrev pub error_text : List ℕ → List ℕ
error_text message = codes "{\"type\":\"error\",\"message\":\"" ++ (message ++ codes "\"}")

abbrev pub end_text : ℕ → ℤ → List ℕ
end_text count total =
    codes "{\"type\":\"end\",\"count\":"
    ++ (show_ℕ count ++ (codes ",\"total_bytes\":" ++ (show_ℤ total ++ codes "}")))

abbrev pub stats_text : Stats → List ℕ
stats_text s =
    codes "{\"type\":\"stats\",\"count\":"
    ++ (show_ℕ s.count ++ (codes ",\"total_bytes\":" ++ (show_ℤ s.total_bytes ++ codes "}")))

abbrev pub freed_text : ℤ → List ℕ
freed_text freed =
    codes "{\"type\":\"result\",\"ok\":true,\"freed\":" ++ (show_ℤ freed ++ codes "}")

abbrev pub stream_end_text : List ℕ
stream_end_text = codes "{\"type\":\"stream_end\"}"

-- A message of `err`, escaped into a buffer of 512 bytes.
abbrev pub escaped_error : List ℕ → List ℕ
escaped_error message = error_text (escaped_in 512 message)

-- What a line of the client leads to: the connection goes on, or it is closed, or it is inside a
-- stream.
pub data Next (W : Type 0) : Type 0 where
  goes_on : W → List RecvEvent → Next W
  stops streams : W → Next W

module _ (S : Services) where
  open S use {World, send, scan, scan_stats, truncate_fd, send_signal, trace_fd}

  -- `hsed_send_linef`, whose result the handlers ignore.
  unfoldable pub reply : World → List ℕ → World
  reply w formatted = (send w (linef formatted)).0

  -- The loop over the entries; it ends the command where a line cannot be sent.
  unfoldable pub send_entries : World → List Entry → ℕ → ℤ → World
  unfolding reply add_long
  send_entries w [] count total = reply w (end_text count total)
  send_entries w (e ∷ es) count total =
      let sent = send w (format_entry entry_buffer e) in
      let rest = send_entries sent.0 es count (add_long total e.size) in
      if sent.1 then rest else sent.0

  unfoldable pub handle_scan : World → ℤ → ℤ → ℕ → ℤ → World
  unfolding send_entries
  handle_scan w min_size only_pid uid_filter scan_threads =
      let (w', r) = scan w min_size only_pid uid_filter scan_threads in
      elim r [
        | err reason ↦ reply w' (error_text (codes "scan failed: " ++ reason))
        | ok list ↦ send_entries w' list (length list) (pos 0)
      ]

  unfoldable pub handle_stats : World → ℤ → ℕ → ℤ → World
  unfolding reply
  handle_stats w min_size uid_filter scan_threads =
      let (w', r) = scan_stats w min_size uid_filter scan_threads in
      elim r [
        | err reason ↦ reply w' (error_text (codes "stats scan failed: " ++ reason))
        | ok stats ↦ reply w' (stats_text stats)
      ]

  unfoldable pub handle_truncate : World → ℤ → ℤ → World
  unfolding reply
  handle_truncate w pid fd =
      let (w', r) = truncate_fd w pid fd in
      elim r [
        | err message ↦ reply w' (escaped_error message)
        | ok freed ↦ reply w' (freed_text freed)
      ]

  handle_signal : World → ℤ → ℕ → World
  unfolding reply
  handle_signal w pid sig =
      let (w', r) = send_signal w pid sig in
      elim r [
        | err message ↦ reply w' (escaped_error message)
        | ok _ ↦ reply w' (codes "{\"type\":\"result\",\"ok\":true}")
      ]

  unfoldable pub handle_hup : World → ℤ → World
  unfolding handle_signal
  handle_hup w pid = handle_signal w pid sighup

  unfoldable pub handle_kill : World → ℤ → World
  unfolding handle_signal
  handle_kill w pid = handle_signal w pid sigkill

  -- What `handle_stream` does with `rc`.
  unfoldable pub after_trace : World → List RecvEvent → Traced → Next World
  unfolding reply
  after_trace w events (returned (err message)) = goes_on (reply w (escaped_error message)) events
  after_trace w events (returned (ok _)) = goes_on (reply w stream_end_text) events
  after_trace w events tracing = streams w

  unfoldable pub handle_stream : World → List RecvEvent → ℤ → ℤ → ℕ → Next World
  unfolding after_trace
  handle_stream w events pid fd max_capture =
      let ((w', events'), r) = trace_fd w events pid fd max_capture in after_trace w' events' r
