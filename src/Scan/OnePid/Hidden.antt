-- ===== src/Scan/OnePid/Hidden.antt =====
-- Which descriptors are reported, in terms of /proc: the link of a descriptor ends in ` (deleted)`.
use hsed.Base.{
  ℕ, ◌-◌, ◌<◌, ◌≡◌, refl, sym, ap, subst, ◌⊎◌, inl, inr, ℤ, ◌≤ℤ◌, true, false, Option, none, some,
  Option-cases, Bool-cases, List, [], ◌∷◌, ◌++◌, length, length-append, take, drop, length-take,
  take-append-drop, All, All-map, arith,
}
use hsed.Libc.Strings.{str_eq→eq}
use hsed.Util.{copied_whole}
use hsed.Entry.{Entry, path_max, uid_any}
use hsed.Scan.System.{System, FileStat}
use hsed.Scan.Fields.{is_all_digits, is_virtual_target}
use hsed.Scan.OnePid.{
  Query, Found, deleted_suffix, deleted_suffix_len, fd_number, examine, check_link, check_target,
  check_stat, entry_of, is_filtered_out, proc_path, fd_dir_path,
}
use hsed.Scan.OnePid.Reported.{reported_in, reported}

-- The descriptor `name` of the directory `fd_dir` holds a deleted file of this target and status.
pub record IsHidden (sys : System) (q : Query) (fd_dir name : List ℕ) (f : Found) : Type 0 where
  pub numbered : is_all_digits name ≡ true
  pub number : f.fdnum ≡ fd_number name
  pub link : List ℕ
  pub links : sys.readlink (fd_dir ++ b'/' ∷ name) ≡ some link
  pub deleted : take (path_max - 1) link ≡ f.target ++ deleted_suffix
  pub real : is_virtual_target f.target ≡ false
  pub exists : sys.stat (fd_dir ++ b'/' ∷ name) ≡ some f.st
  pub large : q.min_size ≤ℤ f.st.st_size

check_stat_sound :
    (q : Query) (n : ℤ) (target : List ℕ) (st : Option FileStat) (f : Found)
    → check_stat q n target st ≡ some f
    → (f.fdnum ≡ n) × (f.target ≡ target) × (st ≡ some f.st) × (q.min_size ≤ℤ f.st.st_size)
unfolding check_stat
check_stat_sound q n target none f e = cc
check_stat_sound q n target (some st) f e = ground arith

check_target_sound :
    (sys : System) (q : Query) (path : List ℕ) (n : ℤ) (linked : List ℕ) (f : Found)
    → check_target sys q path n linked ≡ some f
    → (f.fdnum ≡ n)
      × (linked ≡ f.target ++ deleted_suffix)
      × (is_virtual_target f.target ≡ false)
      × (sys.stat path ≡ some f.st)
      × (q.min_size ≤ℤ f.st.st_size)
unfolding check_target
check_target_sound sys q path n linked f e =
    let cut = length linked - deleted_suffix_len in
    ground (
      arith,
      check_stat_sound q n (take cut linked) (sys.stat path) f,
      str_eq→eq (drop cut linked) deleted_suffix,
      take-append-drop cut linked,
    )

examine_inv :
    (sys : System) (q : Query) (fd_dir name : List ℕ) (f : Found)
    → examine sys q fd_dir name ≡ some f
    → let path = fd_dir ++ b'/' ∷ name in
      (is_all_digits name ≡ true)
      × (check_link sys q path (fd_number name) (sys.readlink path) ≡ some f)
unfolding examine
examine_inv sys q fd_dir name f e = ground arith

check_link_inv :
    (sys : System) (q : Query) (path : List ℕ) (n : ℤ) (r : Option (List ℕ)) (f : Found)
    → check_link sys q path n r ≡ some f
    → (link : List ℕ) × (r ≡ some link)
      × (check_target sys q path n (take (path_max - 1) link) ≡ some f)
unfolding check_link
check_link_inv sys q path n none f e = cc
check_link_inv sys q path n (some link) f e = (link, refl, e)

-- Whatever passes the tests of the loop is a descriptor of a deleted file.
pub examine-IsHidden :
    (sys : System) (q : Query) (fd_dir name : List ℕ) (f : Found)
    → examine sys q fd_dir name ≡ some f
    → IsHidden sys q fd_dir name f
examine-IsHidden sys q fd_dir name f e =
    let path = fd_dir ++ b'/' ∷ name in
    let (digits, e') = examine_inv sys q fd_dir name f e in
    let (link, links, e'') = check_link_inv sys q path (fd_number name) (sys.readlink path) f e' in
    let (number, deleted, real, exists, large) =
      check_target_sound sys q path (fd_number name) (take (path_max - 1) link) f e'' in
    record {
      numbered = digits;
      number = number;
      link = link;
      links = links;
      deleted = deleted;
      real = real;
      exists = exists;
      large = large;
    }

IsHidden-target-lt :
    {sys : System} {q : Query} {fd_dir name : List ℕ} {f : Found}
    → IsHidden sys q fd_dir name f
    → length f.target < path_max
IsHidden-target-lt {f = f} h = omega (
  arith,
  ap length h.deleted,
  length-append f.target deleted_suffix,
  length-take (path_max - 1) h.link,
)

-- What an entry says: the process, a descriptor of it that holds a deleted file, that file's path,
-- size and inode, and an owner that the query asks for.
abbrev pub Tells : System → Query → ℤ → ℕ → Entry → Type 0
Tells sys q pid owner_uid e =
    (name : List ℕ) × (f : Found) × IsHidden sys q (fd_dir_path pid) name f
    × (e.pid ≡ pid)
    × (e.fd ≡ f.fdnum)
    × (e.path ≡ f.target)
    × (e.size ≡ f.st.st_size)
    × (e.inode ≡ f.st.st_ino)
    × (e.uid ≡ owner_uid)

reported_in-Tells :
    (sys : System) (q : Query) (pid : ℤ) (owner_uid : ℕ) (names : List (List ℕ))
    → All (Tells sys q pid owner_uid) (reported_in sys q pid owner_uid (fd_dir_path pid) names)
unfolding reported_in
reported_in-Tells sys q pid owner_uid [] = tt
reported_in-Tells sys q pid owner_uid (name ∷ names) =
    elim (Option-cases (examine sys q (fd_dir_path pid) name)) [
      | inl skipped ↦ rw (skipped, reported_in) (reported_in-Tells sys q pid owner_uid names)
      | inr (f, found) ↦
          let h = examine-IsHidden sys q (fd_dir_path pid) name f found in
          rw (found, reported_in)
            (
              unfold entry_of in
                  (
                    name,
                    f,
                    h,
                    refl,
                    refl,
                    copied_whole f.target path_max (IsHidden-target-lt h),
                    refl,
                    refl,
                    refl,
                  ),
              reported_in-Tells sys q pid owner_uid names,
            )
    ]

wanted :
    (uid_filter owner_uid : ℕ)
    → is_filtered_out uid_filter owner_uid ≡ false
    → (uid_filter ≡ uid_any) ⊎ (owner_uid ≡ uid_filter)
unfolding is_filtered_out
wanted uid_filter owner_uid e = ground (arith)

abbrev pub IsTold : System → Query → ℤ → Entry → Type 0
IsTold sys q pid e =
    (pst : FileStat) × (sys.stat (proc_path pid) ≡ some pst)
    × ((q.uid_filter ≡ uid_any) ⊎ (pst.st_uid ≡ q.uid_filter))
    × Tells sys q pid pst.st_uid e

opened_reported :
    (sys : System) (q : Query) (pid : ℤ) (pst : FileStat) (names : List (List ℕ))
    → sys.stat (proc_path pid) ≡ some pst
    → is_filtered_out q.uid_filter pst.st_uid ≡ false
    → sys.opendir (fd_dir_path pid) ≡ some names
    → reported sys q pid ≡ reported_in sys q pid pst.st_uid (fd_dir_path pid) names
unfolding reported
opened_reported sys q pid pst names here kept opened = rw (here, reported, kept, opened)

-- Every entry that a scan of a process reports names that process, its owner, who is the one asked
-- for where one is, and a descriptor whose link is the entry's whole path and ` (deleted)`, is not
-- one of the virtual targets, and has at least the size asked for.
pub reported-Tells :
    (sys : System) (q : Query) (pid : ℤ) → All (IsTold sys q pid) (reported sys q pid)
unfolding reported
reported-Tells sys q pid = elim (Option-cases (sys.stat (proc_path pid))) [
  | inl gone ↦ rw (gone, reported) tt
  | inr (pst, here) ↦ elim (Bool-cases (is_filtered_out q.uid_filter pst.st_uid)) [
    | inl out ↦ rw (here, reported, out) tt
    | inr kept ↦ elim (Option-cases (sys.opendir (fd_dir_path pid))) [
      | inl shut ↦ rw (here, reported, kept, shut) tt
      | inr (names, opened) ↦
          subst (All (IsTold sys q pid))
            (sym (opened_reported sys q pid pst names here kept opened))
            (All-map (reported_in sys q pid pst.st_uid (fd_dir_path pid) names)
              (λ e t. (pst, here, wanted q.uid_filter pst.st_uid kept, t))
              (reported_in-Tells sys q pid pst.st_uid names))
    ]
  ]
]
