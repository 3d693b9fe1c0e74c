-- ===== src/Scan/OnePid/Complete.antt =====
-- No descriptor of a deleted file is passed over: the tests of the loop, read backwards.
use hsed.Base.{
  ℕ, ◌-◌, ◌≡◌, sym, ℤ, ◌≤ℤ◌, ltb_ℤ, true, false, some, List, [], ◌∷◌, ◌++◌, length, length-append,
  take-append_front, drop-append_back, ltb, arith, ◌↔◌,
}
use hsed.Libc.{is_digit}
use hsed.Libc.Strings.{str_eq_refl}
use hsed.Scan.System.{System}
use hsed.Scan.Fields.{is_all_digits, is_virtual_target}
use hsed.Scan.OnePid.{
  Query, Found, deleted_suffix, deleted_suffix_len, starts_with_dot, examine, check_link,
  check_target, check_stat,
}
use hsed.Scan.OnePid.Hidden.{IsHidden, examine-IsHidden}

digits_no_dot : (name : List ℕ) → is_all_digits name ≡ true → starts_with_dot name ≡ false
unfolding is_all_digits starts_with_dot is_digit
digits_no_dot [] h = cc
digits_no_dot (c ∷ s) h = ground arith

not_small : (a b : ℤ) → a ≤ℤ b → ltb_ℤ b a ≡ false
not_small a b h = ground arith

check_stat_complete :
    (q : Query) (f : Found)
    → q.min_size ≤ℤ f.st.st_size
    → check_stat q f.fdnum f.target (some f.st) ≡ some f
unfolding check_stat
check_stat_complete q f h = rw (not_small q.min_size f.st.st_size h)

check_target_complete :
    (sys : System) (q : Query) (path : List ℕ) (f : Found)
    → is_virtual_target f.target ≡ false
    → sys.stat path ≡ some f.st
    → q.min_size ≤ℤ f.st.st_size
    → check_target sys q path f.fdnum (f.target ++ deleted_suffix) ≡ some f
unfolding check_target
check_target_complete sys q path f real exists large =
    let whole = length-append f.target deleted_suffix in
    let cut : length (f.target ++ deleted_suffix) - deleted_suffix_len ≡ length f.target =
      omega (arith, whole) in
    let room : ltb (length (f.target ++ deleted_suffix)) deleted_suffix_len ≡ false =
      ground (arith, whole) in
    rw
      (
        room,
        drop-append_back f.target deleted_suffix _ cut,
        take-append_front f.target deleted_suffix _ cut,
        str_eq_refl deleted_suffix,
        real,
        exists,
      )
      (check_stat_complete q f large)

examine_complete :
    (sys : System) (q : Query) (fd_dir name : List ℕ) (f : Found)
    → IsHidden sys q fd_dir name f
    → examine sys q fd_dir name ≡ some f
unfolding examine check_link
examine_complete sys q fd_dir name f h =
    rw (digits_no_dot name h.numbered, h.numbered, h.links, h.deleted, sym h.number)
      (check_target_complete sys q (fd_dir ++ b'/' ∷ name) f h.real h.exists h.large)

-- The loop takes a name in a directory of descriptors for a finding exactly when the name is a number
-- and its link is the finding's target and ` (deleted)`, the target is not virtual, and the file has
-- the finding's status and at least the size asked for.
pub examine_iff :
    (sys : System) (q : Query) (fd_dir name : List ℕ) (f : Found)
    → (examine sys q fd_dir name ≡ some f) ↔ IsHidden sys q fd_dir name f
examine_iff sys q fd_dir name f =
    (examine-IsHidden sys q fd_dir name f, examine_complete sys q fd_dir name f)
