-- ===== src/Reclaim/Examples.antt =====
-- Truncating at a machine with one file.
use hsed.Base.{ℕ, ◌≡◌, refl, ◌⊎◌, ℤ, pos, false, some, List, []}
use hsed.Outcome.{ok, err}
use hsed.Reclaim.{fd_path, truncate_fd}
use hsed.Reclaim.Truncated.{Emptied, truncate_fd_lem}
use hsed.Reclaim.Machine.{Machine, machine, one_file, machine-Documented}

abbrev full : Machine
full = record { bytes = pos 4096; opened = false; sent = [] }

truncate_fd_lem_example :
    let (m, r) = truncate_fd machine full (pos 12) (pos 3) 256 in
    (((f : Unit {0}) × (freed : ℤ) × (one_file.file_at full (fd_path (pos 12) (pos 3)) ≡ some f)
        × (r ≡ ok freed)
        × Emptied machine one_file full m f freed)
      ⊎ ((message : List ℕ) × (r ≡ err message)
          × ((g : Unit {0}) → one_file.size m g ≡ one_file.size full g)))
    × ((other : ℤ) → one_file.held m other ≡ one_file.held full other)
truncate_fd_lem_example =
    truncate_fd_lem machine one_file machine-Documented full (pos 12) (pos 3) 256

truncated :
    truncate_fd machine full (pos 12) (pos 3) 256
    ≡ (record { bytes = pos 0; opened = false; sent = [] }, ok (pos 4096))
unfolding truncate_fd
truncated = refl
