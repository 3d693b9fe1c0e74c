-- ===== src/Reclaim/Truncated.antt =====
-- What `hsed_truncate_fd` of backend/src/reclaim.c leaves behind, in a system that keeps to what its
-- calls document.
use hsed.Base.{
  ℕ, ◌≡◌, ◌≢◌, refl, sym, ap, ◌∙◌, ◌⊎◌, inl, inr, Bool-cases, eqb_ℤ→eq, eqb_ℤ_refl, ℤ, pos, eqb_ℤ,
  Option, none, some, List, if◌then◌else◌,
}
use hsed.Outcome.{Outcome, ok, err, Outcome-cases}
use hsed.Reclaim.{Kernel, fd_path, empty_opened, empty_path, truncate_fd}

-- Files with their sizes, and what the descriptors of the daemon refer to.
pub record Files (K : Kernel) : Type 1 where
  pub File : Type 0
  pub file_at : K.World → List ℕ → Option File
  pub size : K.World → File → ℤ
  pub held : K.World → ℤ → Option File

module _ (K : Kernel) (F : Files K) where
  open K use {World}
  open F use {File, file_at, size, held}

  -- No file and no descriptor changed.
  pub record Unchanged (w w' : World) : Type 0 where
    pub sizes : (f : File) → size w' f ≡ size w f
    pub fds : (fd : ℤ) → held w' fd ≡ held w fd

  -- stat(2), open(2), ftruncate(2) and close(2): a call that fails changes nothing.
  pub record Documented : Type 0 where
    pub stat_ok :
        (w : World) (path : List ℕ) (n : ℤ)
        → K.stat w path ≡ ok n
        → (f : File) × (file_at w path ≡ some f) × (size w f ≡ n)
    pub open_err :
        (w : World) (path reason : List ℕ)
        → (K.open_writable w path).1 ≡ err reason
        → Unchanged w (K.open_writable w path).0
    pub open_ok :
        (w : World) (path : List ℕ) (fd : ℤ)
        → (K.open_writable w path).1 ≡ ok fd
        → (held w fd ≡ none)
          × ((f : File) → size (K.open_writable w path).0 f ≡ size w f)
          × ((other : ℤ)
              → held (K.open_writable w path).0 other
                ≡ (if eqb_ℤ other fd then file_at w path else held w other))
    pub ftruncate_err :
        (w : World) (fd : ℤ) (reason : List ℕ)
        → (K.ftruncate w fd).1 ≡ err reason
        → Unchanged w (K.ftruncate w fd).0
    pub ftruncate_ok :
        (w : World) (fd : ℤ) (f : File)
        → (K.ftruncate w fd).1 ≡ ok tt
        → held w fd ≡ some f
        → (size (K.ftruncate w fd).0 f ≡ pos 0)
          × ((g : File) → g ≢ f → size (K.ftruncate w fd).0 g ≡ size w g)
          × ((other : ℤ) → held (K.ftruncate w fd).0 other ≡ held w other)
    pub close_lem :
        (w : World) (fd : ℤ)
        → ((f : File) → size (K.close w fd) f ≡ size w f)
          × ((other : ℤ)
              → held (K.close w fd) other ≡ (if eqb_ℤ other fd then none else held w other))

  -- The file `f` alone was emptied, and it had `freed` bytes.
  pub record Emptied (w w' : World) (f : File) (freed : ℤ) : Type 0 where
    pub freed_all : size w f ≡ freed
    pub empty : size w' f ≡ pos 0
    pub others : (g : File) → g ≢ f → size w' g ≡ size w g

  -- That file was emptied and its size reported; or there is a message, and every file is as it was.
  abbrev pub Emptying : World → World → Outcome ℤ → File → Type 0
  Emptying w w' r f =
      ((freed : ℤ) × (r ≡ ok freed) × Emptied w w' f freed)
      ⊎ ((message : List ℕ) × (r ≡ err message) × ((g : File) → size w' g ≡ size w g))

  module _ (D : Documented) where
    -- From a descriptor of the file on.
    empty_opened_lem :
        (w : World) (fd : ℤ) (path : List ℕ) (freed : ℤ) (errlen : ℕ) (f : File)
        → held w fd ≡ some f
        → size w f ≡ freed
        → let (w', r) = empty_opened K w fd path freed errlen in
          Emptying w w' r f
          × ((other : ℤ) → held w' other ≡ (if eqb_ℤ other fd then none else held w other))
    unfolding empty_opened
    empty_opened_lem w fd path freed errlen f opened bytes =
        let w₁ = (K.ftruncate w fd).0 in
        let (closed, left) = D.close_lem w₁ fd in
        elim (Outcome-cases (K.ftruncate w fd).1) [
          | inl (reason, failed) ↦
              let same = D.ftruncate_err w fd reason failed in
              rw (failed, empty_opened)
                (
                  inr (_, refl, λ g. closed g ∙ same.sizes g),
                  λ other. left other ∙ rw (same.fds other) refl,
                )
          | inr (_, done) ↦
              let (zero, others, fds) = D.ftruncate_ok w fd f done opened in
              rw (done, empty_opened)
                (
                  inl (
                    freed,
                    refl,
                    record {
                      freed_all = bytes;
                      empty = closed f ∙ zero;
                      others = λ g apart. closed g ∙ others g apart;
                    },
                  ),
                  λ other. left other ∙ rw (fds other) refl,
                )
        ]

    empty_path_lem :
        (w : World) (path : List ℕ) (freed : ℤ) (errlen : ℕ) (f : File)
        → file_at w path ≡ some f
        → size w f ≡ freed
        → let (w', r) = empty_path K w path freed errlen in
          Emptying w w' r f × ((other : ℤ) → held w' other ≡ held w other)
    unfolding empty_path
    empty_path_lem w path freed errlen f found bytes =
        elim (Outcome-cases (K.open_writable w path).1) [
          | inl (reason, failed) ↦
              let same = D.open_err w path reason failed in
              rw (failed, empty_path) (inr (_, refl, same.sizes), same.fds)
          | inr (fd, opened) ↦
              let w₁ = (K.open_writable w path).0 in
              let (free, sizes, fds) = D.open_ok w path fd opened in
              let refers = fds fd ∙ rw (eqb_ℤ_refl fd) found in
              let (result, left) =
                empty_opened_lem w₁ fd path freed errlen f refers (sizes f ∙ bytes) in
              rw (opened, empty_path)
                (
                  since_open w w₁ _ _ f sizes result,
                  λ other. left other ∙ restored w w₁ fd path free fds other,
                )
        ]
      where
        -- Opening changed no size.
        since_open :
            (w w₁ w' : World) (r : Outcome ℤ) (f : File)
            → ((g : File) → size w₁ g ≡ size w g)
            → Emptying w₁ w' r f
            → Emptying w w' r f
        since_open w w₁ w' r f sizes (inl (freed, e, done)) = inl (
          freed,
          e,
          record {
            freed_all = sym (sizes f) ∙ done.freed_all;
            empty = done.empty;
            others = λ g apart. done.others g apart ∙ sizes g;
          },
        )
        since_open w w₁ w' r f sizes (inr (message, e, same)) =
            inr (message, e, λ g. same g ∙ sizes g)

        restored :
            (w w₁ : World) (fd : ℤ) (path : List ℕ)
            → held w fd ≡ none
            → ((other : ℤ)
                → held w₁ other ≡ (if eqb_ℤ other fd then file_at w path else held w other))
            → (other : ℤ) → (if eqb_ℤ other fd then none else held w₁ other) ≡ held w other
        restored w w₁ fd path free fds other = elim (Bool-cases (eqb_ℤ other fd)) [
          | inl same ↦ rw same (sym (ap (held w) (eqb_ℤ→eq other fd same) ∙ free))
          | inr apart ↦ rw apart (fds other ∙ rw apart refl)
        ]

    -- In a system that keeps to what its calls document, truncating either empties the file that
    -- the path in /proc leads to, no other one, and reports the size that it had, or it gives a
    -- message and leaves every file as it was. Either way each descriptor of the daemon refers to
    -- what it did before, so the one that was opened is closed.
    pub truncate_fd_lem :
        (w : World) (pid fd : ℤ) (errlen : ℕ)
        → let (w', r) = truncate_fd K w pid fd errlen in
          (((f : File) × (freed : ℤ) × (file_at w (fd_path pid fd) ≡ some f)
              × (r ≡ ok freed)
              × Emptied w w' f freed)
            ⊎ ((message : List ℕ) × (r ≡ err message) × ((g : File) → size w' g ≡ size w g)))
          × ((other : ℤ) → held w' other ≡ held w other)
    unfolding truncate_fd
    truncate_fd_lem w pid fd errlen = elim (Outcome-cases (K.stat w (fd_path pid fd))) [
      | inl (reason, failed) ↦ rw (failed, truncate_fd) (inr (_, refl, λ g. refl), λ other. refl)
      | inr (freed, stated) ↦
          let (f, found, bytes) = D.stat_ok w (fd_path pid fd) freed stated in
          let (result, fds) = empty_path_lem w (fd_path pid fd) freed errlen f found bytes in
          rw (stated, truncate_fd)
            (
              elim result [
                | inl (n, e, done) ↦ inl (f, n, found, e, done)
                | inr none_emptied ↦ inr none_emptied
              ],
              fds,
            )
    ]
