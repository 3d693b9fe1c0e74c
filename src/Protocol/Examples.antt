-- ===== src/Protocol/Examples.antt =====
-- Tests of the escaping and of the sending loop, and their theorems at concrete data.
use native.Mathlib.Omega.{arith}
use mathlib.Core.List.{Sublistᴰ}
use hsed.Base.{ℕ, ◌≡◌, ◌<◌, refl, inl, inr, some, List, [], ◌∷◌, length, codes, true, pos, negsuc}
use hsed.Protocol.{
  json_escape, text, SendEvent, accepts, interrupted, failing, sent, failed, send_line,
  format_entry,
}
use hsed.Protocol.Reading.{read_string}
use hsed.Entry.{Entry}
use hsed.Libc.{str_starts, is_digit, digits_value}
use hsed.Protocol.Object.{Json, number, truth, read_object}
use hsed.Protocol.Object.EntryLine.{of_type, entry_members, IsEntry, read_object-entry}
use hsed.Server.{entry_buffer}
use hsed.Protocol.Escape.{json_escape_reads}
use hsed.Protocol.Send.{SendOutcome, send_line_lem, send_line-sent}

-- A quotation mark, a tab and a letter.
abbrev quoted : List ℕ
quoted = b'"' ∷ 9 ∷ b'a' ∷ []

abbrev calls : List SendEvent
calls = accepts 2 ∷ interrupted ∷ accepts 9 ∷ accepts 1 ∷ []

escape_test : json_escape 64 quoted ≡ text (codes "\\\"\\ta")
unfolding json_escape
escape_test = refl

cut_test : json_escape 4 (codes "abcdef") ≡ text (codes "ab")
unfolding json_escape
cut_test = refl

failing_test :
    send_line (codes "ping") (accepts 2 ∷ failing ∷ [])
    ≡ record { status = failed; wire = codes "pi" }
unfolding send_line
failing_test = refl

json_escape_reads_example :
    (s kept : List ℕ) × (json_escape 4 quoted ≡ text s)
    × (length s < 4)
    × (read_string s ≡ some kept)
    × Sublistᴰ kept quoted
json_escape_reads_example = json_escape_reads 4 quoted (omega arith)

send_line_lem_example : SendOutcome (codes "ping") (send_line (codes "ping") calls)
send_line_lem_example = send_line_lem (codes "ping") calls

send_line-sent_example : (send_line (codes "a") (accepts 2 ∷ accepts 5 ∷ [])).status ≡ sent
send_line-sent_example = send_line-sent (codes "a") (accepts 2 ∷ accepts 5 ∷ []) (omega arith)

abbrev small_entry : Entry
small_entry = record {
  pid = pos 7;
  fd = pos 3;
  mode = codes "rw";
  size = pos 8192;
  uid = 1000;
  user = codes "app";
  comm = codes "app";
  cmdline = codes "app -d";
  path = codes "/tmp/a";
  inode = 42;
  dev_major = 8;
  dev_minor = 1;
  mtime = negsuc 4;
}

small_entry-IsEntry : IsEntry small_entry
small_entry-IsEntry = record {
  pid = omega arith;
  fd = omega arith;
  mode = inr (inr (inl refl));
  size = omega arith;
  uid = omega arith;
  user = (omega arith, (inl (omega arith), (inl (omega arith), (inl (omega arith), tt))));
  comm = (omega arith, (inl (omega arith), (inl (omega arith), (inl (omega arith), tt))));
  cmdline = (omega arith, search (arith));
  path = (omega arith, search (arith));
  inode = omega arith;
  dev_major = omega arith;
  dev_minor = omega arith;
  mtime = omega arith;
}

read_object_test :
    read_object (codes "{\"pid\":-12,\"path\":\"a\\nb\",\"ok\":true}")
    ≡ some (
        (codes "pid", number (negsuc 11))
        ∷ (codes "path", Json.text (b'a' ∷ 10 ∷ b'b' ∷ []))
        ∷ (codes "ok", truth true)
        ∷ [])
unfolding read_object read_string str_starts is_digit digits_value
read_object_test = refl

read_object-entry_example :
    read_object (format_entry entry_buffer small_entry)
    ≡ some (of_type (codes "entry") ∷ entry_members small_entry)
read_object-entry_example = read_object-entry small_entry small_entry-IsEntry
