-- ===== src/Scan/OnePid/Fitting.antt =====
-- The entries that are reported fit their lines.
use hsed.Base.{
  ℕ, ◌-◌, ◌≤◌, ◌<◌, ◌^◌, ◌≡◌, sym, subst, inl, inr, ℤ, some, Option-cases, Bool-cases, List, [],
  ◌∷◌, ◌++◌, All, length, arith,
}
use hsed.Libc.{to_i32, strtol}
use hsed.Libc.Numbers.{IsLong}
use hsed.Entry.{path_max, name_max, cmdline_max}
use hsed.Util.{copied}
use hsed.Protocol.Escape.{IsShort}
use hsed.Protocol.Object.EntryLine.{IsEntry, IsField}
use hsed.Scan.System.{System, FileStat}
use hsed.Scan.Fields.{read_comm, read_cmdline, owner_name, comm_path}
use hsed.Scan.Fields.Modes.{fd_mode-IsMode}
use hsed.Scan.Fields.Lengths.{length-read_comm}
use hsed.Scan.Fields.Texts.{
  HasTexts, All-take, read_comm-All, read_cmdline-All, owner_name-All, copied-All, length-copied,
  length-copied-le,
}
use hsed.Scan.OnePid.{Query, Found, not_loaded, load, entry_of, examine}
use hsed.Scan.OnePid.Hidden.{IsHidden, examine-IsHidden}
use hsed.Scan.OnePid.Reported.{reported_in, reported}
use hsed.Scan.OnePid.{is_filtered_out, proc_path, fd_dir_path}

pub to_i32-IsLong : (z : ℤ) → IsLong (to_i32 z)
unfolding to_i32
to_i32-IsLong z = ground (arith)

-- A machine whose texts fit the lines that are sent about them: texts without control bytes but tab,
-- newline and return, a name of a process in the 64 bytes that the kernel has for it, and numbers in
-- the ranges of their types.
pub record Fits (sys : System) : Type 0 where
  pub texts : HasTexts sys
  pub links : (path s : List ℕ) → sys.readlink path ≡ some s → All IsShort s
  pub comms : (pid : ℤ) (s : List ℕ) → sys.file (comm_path pid) ≡ some s → length s ≤ 63
  pub sizes : (path : List ℕ) (st : FileStat) → sys.stat path ≡ some st → IsLong st.st_size
  pub times : (path : List ℕ) (st : FileStat) → sys.stat path ≡ some st → IsLong st.st_mtime
  pub inodes : (path : List ℕ) (st : FileStat) → sys.stat path ≡ some st → st.st_ino < 2 ^ 64
  pub owners : (path : List ℕ) (st : FileStat) → sys.stat path ≡ some st → st.st_uid < 2 ^ 64
  pub majors : (dev : ℕ) → sys.major dev < 2 ^ 64
  pub minors : (dev : ℕ) → sys.minor dev < 2 ^ 64

copied-IsField : (s : List ℕ) (n : ℕ) → 0 < n → All IsShort s → IsField n (copied s n)
copied-IsField s n room h = (length-copied s n room, copied-All s n room h)

append-All : (s t : List ℕ) → All IsShort (s ++ t) → All IsShort s
append-All [] t h = tt
append-All (c ∷ s) t h = (h.0, append-All s t h.1)

module _ (sys : System) (fits : Fits sys) (q : Query) (pid : ℤ) (small : IsLong pid) where
  entry_of-IsEntry :
      (owner_uid : ℕ) (name : List ℕ) (f : Found)
      → owner_uid < 2 ^ 64
      → (fd_dir : List ℕ) → IsHidden sys q fd_dir name f
      → IsEntry (entry_of sys pid owner_uid (load sys pid owner_uid not_loaded) f)
  unfolding entry_of load
  entry_of-IsEntry owner_uid name f owner fd_dir h =
      let path = fd_dir ++ b'/' ∷ name in
      let comm_text = read_comm-All sys fits.texts pid name_max (omega arith) in
      record {
        pid = small;
        fd = subst IsLong (sym h.number) (to_i32-IsLong (strtol 10 name));
        mode = fd_mode-IsMode sys pid f.fdnum;
        size = fits.sizes path f.st h.exists;
        uid = owner;
        user =
            copied-IsField (owner_name sys owner_uid name_max) name_max (omega arith)
              (owner_name-All sys fits.texts owner_uid name_max (omega arith));
        comm = (
          omega (
            arith,
            length-copied-le (read_comm sys pid name_max) name_max (omega arith),
            length-read_comm sys pid name_max 63 (fits.comms pid) (omega arith) (omega arith),
          ),
          copied-All (read_comm sys pid name_max) name_max (omega arith) comm_text,
        );
        cmdline =
            copied-IsField (read_cmdline sys pid cmdline_max) cmdline_max (omega arith)
              (read_cmdline-All sys fits.texts pid cmdline_max (omega arith));
        path = copied-IsField f.target path_max (omega arith) (
            append-All f.target _ (
              subst (All IsShort) h.deleted
                (All-take IsShort (path_max - 1) h.link (fits.links path h.link h.links))));
        inode = fits.inodes path f.st h.exists;
        dev_major = fits.majors f.st.st_dev;
        dev_minor = fits.minors f.st.st_dev;
        mtime = fits.times path f.st h.exists;
      }

  reported_in-IsEntry :
      (owner_uid : ℕ)
      → owner_uid < 2 ^ 64
      → (fd_dir : List ℕ) (names : List (List ℕ))
      → All IsEntry (reported_in sys q pid owner_uid fd_dir names)
  unfolding reported_in
  reported_in-IsEntry owner_uid owner fd_dir [] = tt
  reported_in-IsEntry owner_uid owner fd_dir (name ∷ names) =
      elim (Option-cases (examine sys q fd_dir name)) [
        | inl skipped ↦ rw (skipped, reported_in) (reported_in-IsEntry owner_uid owner fd_dir names)
        | inr (f, found) ↦
            rw (found, reported_in)
              (
                entry_of-IsEntry owner_uid name f owner fd_dir
                    (examine-IsHidden sys q fd_dir name f found),
                reported_in-IsEntry owner_uid owner fd_dir names,
              )
      ]

  pub reported-IsEntry : All IsEntry (reported sys q pid)
  unfolding reported
  reported-IsEntry = elim (Option-cases (sys.stat (proc_path pid))) [
    | inl gone ↦ rw (gone, reported) tt
    | inr (st, found) ↦ elim (Bool-cases (is_filtered_out q.uid_filter st.st_uid)) [
      | inl other ↦ rw (found, reported, other) tt
      | inr ours ↦ elim (Option-cases (sys.opendir (fd_dir_path pid))) [
        | inl closed ↦ rw (found, reported, ours, closed) tt
        | inr (names, opened) ↦
            rw (found, reported, ours, opened)
              (reported_in-IsEntry st.st_uid (fits.owners (proc_path pid) st found)
                (fd_dir_path pid) names)
      ]
    ]
  ]
