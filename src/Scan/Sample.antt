-- ===== src/Scan/Sample.antt =====
-- A system with one process, which holds a deleted file open.
use hsed.Base.{ℕ, pos, true, Option, none, some, List, [], ◌∷◌, ◌++◌, codes, if◌then◌else◌}
use hsed.Libc.{str_eq}
use hsed.Scan.System.{System}

-- The three files of the process 7 that are read.
unfoldable pub file_at : List ℕ → Option (List ℕ)
file_at path =
    if str_eq path (codes "/proc/7/comm")
    then some (codes "app" ++ 10 ∷ [])
    else if str_eq path (codes "/proc/7/cmdline")
    then some (codes "app" ++ 0 ∷ codes "-v" ++ 0 ∷ [])
    else if str_eq path (codes "/proc/7/fdinfo/3")
    then some (codes "flags: 0100001" ++ 10 ∷ [])
    else none

abbrev pub one_process : System
one_process = record {
  opendir = λ path. some (codes "3" ∷ []);
  stat = λ path.
      some (record {
        st_uid = 1000;
        st_size = pos 8192;
        st_ino = 42;
        st_dev = 2049;
        st_mtime = pos 5;
      });
  readlink = λ path. some (codes "/var/log/app.log (deleted)");
  file = file_at;
  user_name = λ uid. some (codes "app");
  major = λ dev. 8;
  minor = λ dev. 1;
  nprocessors = pos 2;
  has_memory = λ n. true;
}
