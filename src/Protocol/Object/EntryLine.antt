-- ===== src/Protocol/Object/EntryLine.antt =====
-- The line of an entry is the text of an object with the fields of the entry.
use hsed.Base.{
  ℕ, ◌+◌, ◌*◌, ◌-◌, ◌<◌, ◌≤◌, ◌≡◌, refl, ap, ◌∙◌, ◌^◌, pos, some, List, [], ◌∷◌, All, inl, inr, ◌⊎◌,
  length, take_all, codes, show_ℕ, show_ℤ, arith,
}
use hsed.Entry.{Entry, path_max, name_max, cmdline_max}
use hsed.Protocol.{entry_line, format_entry, escaped_in, snprintf}
use hsed.Protocol.Reading.{escape_all}
use hsed.Libc.Numbers.{IsLong}
use hsed.Libc.Width.{length-show_ℤ_word, length-show_ℤ_long}
use hsed.Server.{entry_buffer}
use hsed.Protocol.Escape.{IsShort, json_escape-escapes, length-escape_all-le}
use hsed.Protocol.Object.{Json, number, Members, value_text, object_text, read_object}
use hsed.Protocol.Object.RoundTrip.{length-object_text, read_object-object_text}

-- The members of the object that the line of an entry stands for.
abbrev pub entry_members : Entry → Members
entry_members e =
    (codes "pid", number e.pid)
    ∷ (codes "fd", number e.fd)
    ∷ (codes "mode", Json.text e.mode)
    ∷ (codes "size", number e.size)
    ∷ (codes "uid", number (pos e.uid))
    ∷ (codes "user", Json.text e.user)
    ∷ (codes "comm", Json.text e.comm)
    ∷ (codes "cmdline", Json.text e.cmdline)
    ∷ (codes "path", Json.text e.path)
    ∷ (codes "inode", number (pos e.inode))
    ∷ (codes "dev_major", number (pos e.dev_major))
    ∷ (codes "dev_minor", number (pos e.dev_minor))
    ∷ (codes "mtime", number e.mtime)
    ∷ []

abbrev pub of_type : List ℕ → List ℕ × Json
of_type kind = (codes "type", Json.text kind)

entry_line-object_text :
    (e : Entry)
    → escape_all e.mode ≡ e.mode
    → escaped_in (name_max * 2) e.user ≡ escape_all e.user
    → escaped_in (name_max * 2) e.comm ≡ escape_all e.comm
    → escaped_in (cmdline_max * 2) e.cmdline ≡ escape_all e.cmdline
    → escaped_in (path_max * 2) e.path ≡ escape_all e.path
    → entry_line e ≡ object_text (of_type (codes "entry")) (entry_members e)
unfolding entry_line object_text value_text escape_all show_ℤ show_ℕ
entry_line-object_text e mode user comm cmdline path = rw (mode, user, comm, cmdline, path) refl

-- A mode that the scanner gives a file.
abbrev pub IsMode : List ℕ → Type 0
IsMode m = (m ≡ codes "r") ⊎ (m ≡ codes "w") ⊎ (m ≡ codes "rw") ⊎ (m ≡ codes "?")

-- A C string in a field of `n` bytes that holds no control bytes but tab, newline and return.
abbrev pub IsField : ℕ → List ℕ → Type 0
IsField n s = (length s < n) × All IsShort s

-- The fields in the ranges of their types, and the name of a process in the 64 bytes that the kernel
-- has for it.
pub record IsEntry (e : Entry) : Type 0 where
  pub pid : IsLong e.pid
  pub fd : IsLong e.fd
  pub mode : IsMode e.mode
  pub size : IsLong e.size
  pub uid : e.uid < 2 ^ 64
  pub user : IsField name_max e.user
  pub comm : IsField 64 e.comm
  pub cmdline : IsField cmdline_max e.cmdline
  pub path : IsField path_max e.path
  pub inode : e.inode < 2 ^ 64
  pub dev_major : e.dev_major < 2 ^ 64
  pub dev_minor : e.dev_minor < 2 ^ 64
  pub mtime : IsLong e.mtime

escape_all-mode : (m : List ℕ) → IsMode m → escape_all m ≡ m
escape_all-mode m (inl e) = rw e (unfold escape_all in refl)
escape_all-mode m (inr (inl e)) = rw e (unfold escape_all in refl)
escape_all-mode m (inr (inr (inl e))) = rw e (unfold escape_all in refl)
escape_all-mode m (inr (inr (inr e))) = rw e (unfold escape_all in refl)

length-mode : (m : List ℕ) → IsMode m → length (escape_all m) ≤ 2
length-mode m h = rw (escape_all-mode m h) (elim h [
  | inl e ↦ rw e (omega arith)
  | inr (inl e) ↦ rw e (omega arith)
  | inr (inr (inl e)) ↦ rw e (omega arith)
  | inr (inr (inr e)) ↦ rw e (omega arith)
])

escaped_in-IsField : (n : ℕ) (s : List ℕ) → IsField n s → escaped_in (n * 2) s ≡ escape_all s
escaped_in-IsField n s (h, short) = rw (escaped_in, json_escape-escapes n s h short) refl

comm_fits : (s : List ℕ) → IsField 64 s → IsField name_max s
comm_fits s (h, short) = (omega arith, short)

object_line :
    (e : Entry) → IsEntry e → entry_line e ≡ object_text (of_type (codes "entry")) (entry_members e)
object_line e h =
    entry_line-object_text e (escape_all-mode e.mode h.mode)
      (escaped_in-IsField name_max e.user h.user)
      (escaped_in-IsField name_max e.comm (comm_fits e.comm h.comm))
      (escaped_in-IsField cmdline_max e.cmdline h.cmdline)
      (escaped_in-IsField path_max e.path h.path)

length-field : (n : ℕ) (s : List ℕ) → IsField n s → length (escape_all s) + 2 ≤ 2 * n
length-field n s (h, short) = omega (arith, length-escape_all-le s short)

length-entry_line : (e : Entry) → IsEntry e → length (entry_line e) < entry_buffer
unfolding escape_all
length-entry_line e h = rw (object_line e h) (
    omega (
      arith,
      length-object_text (of_type (codes "entry")) (entry_members e),
      length-show_ℤ_long e.pid h.pid,
      length-show_ℤ_long e.fd h.fd,
      length-show_ℤ_long e.size h.size,
      length-show_ℤ_long e.mtime h.mtime,
      length-show_ℤ_word e.uid h.uid,
      length-show_ℤ_word e.inode h.inode,
      length-show_ℤ_word e.dev_major h.dev_major,
      length-show_ℤ_word e.dev_minor h.dev_minor,
      length-mode e.mode h.mode,
      length-field name_max e.user h.user,
      length-field 64 e.comm h.comm,
      length-field cmdline_max e.cmdline h.cmdline,
      length-field path_max e.path h.path,
    ))

-- The line that is sent for an entry is not cut, and a JSON reader reads it back as an object of the
-- type `entry` with the fields of the entry: the entry has fields in the ranges of their types, one
-- of the modes that the scanner gives, a name of at most 63 bytes, and no control bytes but tab,
-- newline and return in its texts.
pub read_object-entry :
    (e : Entry)
    → IsEntry e
    → read_object (format_entry entry_buffer e) ≡ some (of_type (codes "entry") ∷ entry_members e)
unfolding format_entry snprintf
read_object-entry e h =
    ap read_object (
      take_all (entry_buffer - 1) (entry_line e) (omega (arith, length-entry_line e h))
      ∙ object_line e h)
    ∙ read_object-object_text (of_type (codes "entry")) (entry_members e)
