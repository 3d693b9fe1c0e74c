-- ===== src/Scan/OnePid.antt =====
-- `scan_one_pid`: the descriptors of one process that hold a deleted file. The link targets that
-- the kernel gives hold no NUL, so a target is the list of its bytes.
pub mod Reported
pub mod Hidden
pub mod Fitting
pub mod Complete
use hsed.Base.{
  ℕ, suc, ◌+◌, ◌-◌, ℤ, pos, ◌+ℤ◌, Bool, true, false, not, ◌&&◌, Option, none, some, List, [], ◌∷◌,
  ◌++◌, length, take, drop, codes, show_ℤ, ltb, ltb_ℤ, ◌==◌, if◌then◌else◌,
}
use hsed.Libc.{str_eq, strtol, to_i32, add_long}
use hsed.Util.{copied, strlcpy}
use hsed.Entry.{Entry, Stats, path_max, name_max, cmdline_max, uid_any}
use hsed.Scan.System.{System, FileStat}
use hsed.Scan.Growth.{Grown, list_push}
use hsed.Scan.Fields.{
  is_all_digits, read_comm, read_cmdline, owner_name, fd_mode, is_virtual_target,
}

abbrev pub deleted_suffix : List ℕ
deleted_suffix = codes " (deleted)"

abbrev pub deleted_suffix_len : ℕ
deleted_suffix_len = 10

-- A descriptor that passed all tests of the loop.
pub record Found : Type 0 where
  pub fdnum : ℤ
  pub target : List ℕ
  pub st : FileStat

pub record Query : Type 0 where
  pub min_size : ℤ
  pub uid_filter : ℕ

-- `atoi(de->d_name)`.
abbrev pub fd_number : List ℕ → ℤ
fd_number name = to_i32 (strtol 10 name)

starts_with_dot : List ℕ → Bool
starts_with_dot [] = false
starts_with_dot (c ∷ s) = c == b'.'

unfoldable pub check_stat : Query → ℤ → List ℕ → Option FileStat → Option Found
check_stat q fdnum target none = none
check_stat q fdnum target (some st) =
    if ltb_ℤ st.st_size q.min_size
    then none
    else some (record { fdnum = fdnum; target = target; st = st })

-- The target that `readlink` stored, with its suffix still on.
unfoldable pub check_target : System → Query → List ℕ → ℤ → List ℕ → Option Found
check_target sys q link_path fdnum linked =
    let tlen = length linked in
    let target = take (tlen - deleted_suffix_len) linked in
    if ltb tlen deleted_suffix_len
    then none
    else if not (str_eq (drop (tlen - deleted_suffix_len) linked) deleted_suffix)
    then none
    else if is_virtual_target target
    then none
    else check_stat q fdnum target (sys.stat link_path)

unfoldable pub check_link : System → Query → List ℕ → ℤ → Option (List ℕ) → Option Found
check_link sys q link_path fdnum none = none
check_link sys q link_path fdnum (some linked) =
    check_target sys q link_path fdnum (take (path_max - 1) linked)

-- The tests of the loop on one directory entry; `none` is a `continue`.
unfoldable pub examine : System → Query → List ℕ → List ℕ → Option Found
unfolding starts_with_dot
examine sys q fd_dir name =
    let link_path = fd_dir ++ b'/' ∷ name in
    if starts_with_dot name
    then none
    else if not (is_all_digits name)
    then none
    else check_link sys q link_path (fd_number name) (sys.readlink link_path)

-- What is read once for a process: `comm_loaded` and the like are the cases of the options.
pub record Loaded : Type 0 where
  pub comm : Option (List ℕ)
  pub cmdline : Option (List ℕ)
  pub owner : Option (List ℕ)

abbrev pub not_loaded : Loaded
not_loaded = record { comm = none; cmdline = none; owner = none }

abbrev pub value_or : Option (List ℕ) → List ℕ → List ℕ
value_or none s = s
value_or (some t) s = t

unfoldable pub load : System → ℤ → ℕ → Loaded → Loaded
load sys pid owner_uid l = record {
  comm = some (value_or l.comm (read_comm sys pid name_max));
  cmdline = some (value_or l.cmdline (read_cmdline sys pid cmdline_max));
  owner = some (value_or l.owner (owner_name sys owner_uid name_max));
}

unfoldable pub entry_of : System → ℤ → ℕ → Loaded → Found → Entry
entry_of sys pid owner_uid l f = record {
  pid = pid;
  fd = f.fdnum;
  mode = fd_mode sys pid f.fdnum;
  size = f.st.st_size;
  uid = owner_uid;
  user = copied (value_or l.owner []) name_max;
  comm = copied (value_or l.comm []) name_max;
  cmdline = copied (value_or l.cmdline []) cmdline_max;
  path = copied f.target path_max;
  inode = f.st.st_ino;
  dev_major = sys.major f.st.st_dev;
  dev_minor = sys.minor f.st.st_dev;
  mtime = f.st.st_mtime;
}

-- Where findings go: `stats` is given, or `out` is.
pub data Sink : Type 0 where
  into_stats : Stats → Sink
  into_list : Grown Entry → Sink

unfoldable pub add_stats : Stats → FileStat → Stats
unfolding add_long
add_stats s st = record { count = s.count + 1; total_bytes = add_long s.total_bytes st.st_size }

pushed : Option (Grown Entry) → Option Sink
pushed none = none
pushed (some list) = some (into_list list)

-- The rest of the loop's body for a descriptor that is reported; `none` is out of memory.
unfoldable pub add_found : System → ℤ → ℕ → Loaded → Found → Sink → Option Sink
unfolding pushed
add_found sys pid owner_uid l f (into_stats s) = some (into_stats (add_stats s f.st))
add_found sys pid owner_uid l f (into_list list) =
    pushed (list_push sys list (entry_of sys pid owner_uid l f))

-- The attributes are loaded only on the way to an entry.
after_found : System → ℤ → ℕ → Loaded → Sink → Loaded
after_found sys pid owner_uid l (into_stats s) = l
after_found sys pid owner_uid l (into_list list) = load sys pid owner_uid l

unfoldable pub fd_loop :
    System → Query → ℤ → ℕ → List ℕ → List (List ℕ) → Loaded → Sink → Option Sink
unfolding after_found
fd_loop sys q pid owner_uid fd_dir [] l sink = some sink
fd_loop sys q pid owner_uid fd_dir (name ∷ names) l sink =
    let l' = after_found sys pid owner_uid l sink in
    elim (examine sys q fd_dir name) [
      | none ↦ fd_loop sys q pid owner_uid fd_dir names l sink
      | some f ↦ elim (add_found sys pid owner_uid l' f sink) [
        | none ↦ none
        | some sink' ↦ fd_loop sys q pid owner_uid fd_dir names l' sink'
      ]
    ]

abbrev pub proc_path : ℤ → List ℕ
proc_path pid = codes "/proc/" ++ show_ℤ pid

abbrev pub fd_dir_path : ℤ → List ℕ
fd_dir_path pid = codes "/proc/" ++ (show_ℤ pid ++ codes "/fd")

-- `uid_filter != HSED_UID_ANY && owner_uid != uid_filter`.
unfoldable pub is_filtered_out : ℕ → ℕ → Bool
is_filtered_out uid_filter owner_uid = not (uid_filter == uid_any) && not (owner_uid == uid_filter)

unfoldable pub scan_one_pid : System → Query → ℤ → Sink → Option Sink
scan_one_pid sys q pid sink = elim (sys.stat (proc_path pid)) [
  | none ↦ some sink
  | some pst ↦
      if is_filtered_out q.uid_filter pst.st_uid
      then some sink
      else elim (sys.opendir (fd_dir_path pid)) [
        | none ↦ some sink
        | some names ↦ fd_loop sys q pid pst.st_uid (fd_dir_path pid) names not_loaded sink
      ]
]
