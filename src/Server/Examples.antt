-- ===== src/Server/Examples.antt =====
-- The server's theorems at a world that keeps what was sent, and tests.
use native.Mathlib.Omega.{arith}
use hsed.Base.{
  inl, ℕ, zero, suc, ap, ◌≡◌, ◌<◌, refl, pos, none, true, some, List, [], ◌∷◌, ◌++◌, length, take,
  codes, c_string, map, show_ℕ, show_ℤ, false,
}
use hsed.Outcome.{ok, err}
use hsed.Base64.{encode, b64_char}
use hsed.Entry.{Entry}
use hsed.Server.{
  end_text, stats_text, freed_text, escaped_error, Services, Settings, returned, goes_on,
  handle_hup, handle_kill,
}
use hsed.Server.Accept.{client, ready, Setup, server_run}
use hsed.Server.Accept.Closed.{Leaves, server_run-Leaves}
use hsed.Server.Accept.Paths.{named, restricted, Unnamed, server_run-Unnamed}
use hsed.Server.Accept.LongPath.{server_run_long}
use mathlib.Core.List.{Sublistᴰ}
use hsed.Protocol.{linef}
use hsed.Protocol.Object.{Json, read_object}
use hsed.Protocol.Object.EntryLine.{of_type}
use hsed.Server.ReadBack.{count_members, freed_members, replies_read}
use hsed.Server.Recv.{RecvEvent, byte, interrupted, line, recv_line, recv_line_lem}
use hsed.Server.Stream.{write_text, stream_write_cb, stream_write_cb_cut}
use hsed.Server.Loop.{handle_line}
use hsed.Server.Commands.{pid_command, handle_line-pid}

abbrev small_entry : Entry
small_entry = record {
  pid = pos 7;
  fd = pos 3;
  mode = codes "rw";
  size = pos 8192;
  uid = 1000;
  user = codes "app";
  comm = codes "app";
  cmdline = codes "app -d";
  path = codes "/tmp/a";
  inode = 42;
  dev_major = 8;
  dev_minor = 1;
  mtime = pos 5;
}

-- Every send succeeds, and a scan finds two entries.
abbrev recorder : Services
recorder = record {
  World = List (List ℕ);
  send = λ w s. (w ++ s ∷ [], true);
  scan = λ w min_size only_pid uid threads. (w, ok (small_entry ∷ small_entry ∷ []));
  scan_stats = λ w min_size uid threads. (w, ok (record { count = 0; total_bytes = pos 0 }));
  truncate_fd = λ w pid fd. (w, ok (pos 4096));
  send_signal = λ w pid sig. (w, err (codes "no such process"));
  trace_fd = λ w events pid fd max_capture. ((w, events), returned (ok tt));
}

abbrev defaults : Settings
defaults = record { max_capture = 65536; scan_threads = pos 0 }

-- `PING` and `QUIT`, each with its newline.
abbrev ping_quit : List RecvEvent
ping_quit = map byte (codes "PING") ++ byte 10 ∷ (map byte (codes "QUIT") ++ byte 10 ∷ [])

abbrev some_bytes : List ℕ
some_bytes = codes "written"

abbrev filled : ℕ → List ℕ
filled zero = []
filled (suc n) = b'x' ∷ filled n

-- A payload of that size, without writing its bytes out.
length-filled : (n : ℕ) → length (filled n) ≡ n
length-filled zero = refl
length-filled (suc n) = ap suc (length-filled n)

handle_line-pid_example :
    (handle_line recorder defaults [] [] (pid_command (codes "HUP") (pos 12))
      ≡ goes_on (handle_hup recorder [] (pos 12)) [])
    × (handle_line recorder defaults [] [] (pid_command (codes "KILL") (pos 12))
        ≡ goes_on (handle_kill recorder [] (pos 12)) [])
handle_line-pid_example = handle_line-pid recorder defaults [] [] (pos 12) (omega arith)

recv_line_lem_example :
    recv_line 3 (byte b'a' ∷ interrupted ∷ byte b'b' ∷ byte b'c' ∷ byte 10 ∷ byte b'd' ∷ [])
    ≡ line (codes "ab") (byte b'd' ∷ [])
recv_line_lem_example =
    recv_line_lem 3 (codes "abc")
      (byte b'a' ∷ interrupted ∷ byte b'b' ∷ byte b'c' ∷ byte 10 ∷ byte b'd' ∷ []) (byte b'd' ∷ [])
      (omega arith)
      (
        refl,
        (λ e. omega (arith, e)),
        (refl, (λ e. omega (arith, e)), (refl, (λ e. omega (arith, e)), (refl, refl))),
      )

length-some_text : length (write_text (pos 9) (pos 7) 7 false (c_string (encode some_bytes))) ≡ 89
unfolding write_text encode b64_char show_ℤ show_ℕ c_string
length-some_text = refl

stream_write_cb_cut_example :
    let text =
      write_text
        (pos 9)
        (pos 1536)
        (length (filled 1536))
        false
        (c_string (encode (filled 1536))) in
    (stream_write_cb true (pos 9) (pos 1536) (filled 1536) false ≡ some (take 2047 text))
    × (length (take 2047 text) ≡ 2047)
    × (2047 < length text)
stream_write_cb_cut_example =
    stream_write_cb_cut (pos 9) (pos 1536) (filled 1536) false (omega (arith, length-filled 1536))

-- Two clients, of which the second gets no thread, and the end.
abbrev two_clients : Setup
two_clients = record {
  clears = true;
  removes = true;
  socket = pos 4;
  socket_error = none;
  bind_error = none;
  listen_error = none;
  turns =
      record { shutdown = false; waiting = ready (client (pos 5) true none) }
      ∷ record {
        shutdown = false;
        waiting = ready (client (pos 6) true (some (codes "Resource temporarily unavailable")));
      }
      ∷ record { shutdown = true; waiting = ready (client (pos 7) true none) }
      ∷ [];
}

server_run-Leaves_example :
    Leaves (pos 6) false (server_run defaults two_clients (codes "/run/hsed.sock"))
server_run-Leaves_example = server_run-Leaves defaults two_clients (codes "/run/hsed.sock") (pos 6)

server_run-Unnamed_example :
    Unnamed (codes "/run/hsed.sock") true (server_run defaults two_clients (codes "/run/hsed.sock"))
server_run-Unnamed_example =
    server_run-Unnamed defaults two_clients (codes "/run/hsed.sock") true (omega arith) refl
      (inl refl)

server_run_long_example :
    let (actions, served) = server_run defaults two_clients (filled 120) in
    let cut = take 107 (filled 120) in
    (named cut true actions ≡ true) × (restricted cut actions ≡ false)
server_run_long_example =
    server_run_long defaults two_clients (filled 120) true (omega arith) refl refl refl

replies_read_example :
    (read_object (linef (end_text 2 (pos 16384)))
      ≡ some (of_type (codes "end") ∷ count_members 2 (pos 16384)))
    × (read_object (linef (stats_text (record { count = 2; total_bytes = pos 16384 })))
        ≡ some (of_type (codes "stats") ∷ count_members 2 (pos 16384)))
    × (read_object (linef (freed_text (pos 4096)))
        ≡ some (of_type (codes "result") ∷ freed_members (pos 4096)))
    × ((kept : List ℕ) × Sublistᴰ kept (codes "no \"such\" file")
        × (read_object (linef (escaped_error (codes "no \"such\" file")))
            ≡ some (of_type (codes "error") ∷ (codes "message", Json.text kept) ∷ [])))
replies_read_example =
    replies_read 2 (pos 16384) (pos 4096) (codes "no \"such\" file") (omega arith) (omega arith)
      (omega arith)
