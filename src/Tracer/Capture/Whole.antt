-- ===== src/Tracer/Capture/Whole.antt =====
-- What `capture_writev` stores where the tracee's memory can be read.
use mathlib.Core.List.{append-nil, append_assoc}
use hsed.Base.{
  ℕ, zero, suc, ◌+◌, ◌-◌, ◌*◌, ◌/◌, ◌≤◌, ◌≡◌, refl, sym, ap, ap₂, ◌∙◌, inl, inr, Bool-cases, some,
  List, [], ◌∷◌, ◌++◌, length, length-append, take, take_all, min, take-append_front,
  take-append_more, drop, ltb, ◌==◌, if◌then◌else◌, arith,
}
use hsed.Tracer.Capture.{
  Memory, max_writev_iovecs, iovec_size, RemoteIovec, le_number, iovecs_of, read_remote,
  segments_loop, capture_writev,
}

-- The bytes at some addresses, one after the other.
abbrev pub cells : (ℕ → ℕ) → ℕ → ℕ → List ℕ
cells cell addr zero = []
cells cell addr (suc n) = cell addr ∷ cells cell (addr + 1) n

-- The array of segments at an address.
abbrev pub iovecs_at : (ℕ → ℕ) → ℕ → ℕ → List RemoteIovec
iovecs_at cell addr zero = []
iovecs_at cell addr (suc n) =
    record { base = le_number (cells cell addr 8); len = le_number (cells cell (addr + 8) 8) }
    ∷ iovecs_at cell (addr + 16) n

-- What is written by a `writev` of these segments.
abbrev pub gathered : (ℕ → ℕ) → List RemoteIovec → List ℕ
gathered cell [] = []
gathered cell (iov ∷ iovs) = cells cell iov.base iov.len ++ gathered cell iovs

module _ (cell : ℕ → ℕ) where
  length-cells : (addr n : ℕ) → length (cells cell addr n) ≡ n
  length-cells addr zero = refl
  length-cells addr (suc n) = omega (arith, length-cells (addr + 1) n)

  take-cells :
      (addr m n : ℕ) (ys : List ℕ) → m ≤ n → take m (cells cell addr n ++ ys) ≡ cells cell addr m
  take-cells addr zero n ys h = refl
  take-cells addr (suc m) zero ys h = absurd (omega arith)
  take-cells addr (suc m) (suc n) ys h =
      ap (◌∷◌ (cell addr)) (take-cells (addr + 1) m n ys (omega arith))

  take-cells_all : (addr m n : ℕ) → m ≤ n → take m (cells cell addr n) ≡ cells cell addr m
  take-cells_all addr m n h =
      ap (take m) (sym (append-nil (cells cell addr n))) ∙ take-cells addr m n [] h

  drop-cells :
      (addr m n k a : ℕ) → k ≡ m + n → a ≡ addr + m → drop m (cells cell addr k) ≡ cells cell a n
  drop-cells addr zero n k a h h' =
      let same : addr ≡ a = omega arith in
      let all : k ≡ n = omega arith in ap₂ (cells cell) same all
  drop-cells addr (suc m) n zero a h h' = absurd (omega arith)
  drop-cells addr (suc m) n (suc k) a h h' =
      drop-cells (addr + 1) m n k a (omega arith) (omega arith)

  iovecs_of-cells :
      (addr n k : ℕ) → k ≡ n * 16 → iovecs_of n (cells cell addr k) ≡ iovecs_at cell addr n
  unfolding iovecs_of
  iovecs_of-cells addr zero k h = refl
  iovecs_of-cells addr (suc n) k h =
      let later = drop-cells addr 8 (k - 8) k (addr + 8) (omega arith) refl in
      ap₂ ◌∷◌
        (ap₂ (λ (b l : ℕ). record { base = b; len = l })
          (ap le_number (take-cells_all addr 8 k (omega arith)))
          (ap le_number (ap (take 8) later ∙ take-cells_all (addr + 8) 8 (k - 8) (omega arith))))
        (ap (iovecs_of n) (drop-cells addr 16 (k - 16) k (addr + 16) (omega arith) refl)
          ∙ iovecs_of-cells (addr + 16) n (k - 16) (omega arith))

  -- What a segment adds to the capture, and what it would add if there were room for all of it.
  gathered_step :
      (max_capture : ℕ) (iov : RemoteIovec) (capture rest : List ℕ)
      → length capture ≤ max_capture
      → let space = max_capture - length capture in
        take max_capture
          ((capture ++ cells cell iov.base (if ltb space iov.len then space else iov.len)) ++ rest)
        ≡ take max_capture (capture ++ (cells cell iov.base iov.len ++ rest))
  gathered_step max_capture iov capture rest h =
      let space = max_capture - length capture in
      elim (Bool-cases (ltb space iov.len)) [
        | inr all ↦ rw all (ap (take max_capture) (append_assoc capture _ rest))
        | inl cut ↦ rw cut (
            take-append_front (capture ++ cells cell iov.base space) rest max_capture (
              omega (
                arith,
                length-append capture (cells cell iov.base space),
                length-cells iov.base space,
              ))
            ∙ ap (◌++◌ capture) (sym (take-cells iov.base space iov.len rest (ground arith)))
            ∙ sym (
                take-append_more capture (cells cell iov.base iov.len ++ rest) max_capture space
                  (omega arith)))
      ]

  module _ (memory : Memory) (reads : (addr n : ℕ) → memory addr n ≡ some (cells cell addr n)) where
    pub read_remote-cells : (addr n : ℕ) → read_remote memory addr n ≡ cells cell addr n
    unfolding read_remote
    read_remote-cells addr n = rw (reads addr n, read_remote)

    stored-cells :
        (capture : List ℕ) (addr want : ℕ)
        → (if want == 0 then capture else capture ++ read_remote memory addr want)
          ≡ capture ++ cells cell addr want
    stored-cells capture addr want = elim (Bool-cases (want == 0)) [
      | inl nothing ↦
          let e : want ≡ 0 = ground arith in
          rw nothing (sym (append-nil capture) ∙ ap (λ n. capture ++ cells cell addr n) (sym e))
      | inr some_bytes ↦ rw some_bytes (ap (◌++◌ capture) (read_remote-cells addr want))
    ]

    segments_loop-whole :
        (max_capture : ℕ) (iovs : List RemoteIovec) (capture : List ℕ)
        → length capture ≤ max_capture
        → segments_loop memory max_capture iovs capture
          ≡ take max_capture (capture ++ gathered cell iovs)
    unfolding segments_loop
    segments_loop-whole max_capture [] capture h =
        sym (rw append-nil (take_all max_capture capture h))
    segments_loop-whole max_capture (iov ∷ iovs) capture h =
        elim (Bool-cases (ltb (length capture) max_capture)) [
          | inr full ↦ rw full (sym (take-append_front capture _ max_capture (ground arith)))
          | inl room ↦
              let space = max_capture - length capture in
              let want = if ltb space iov.len then space else iov.len in
              rw (room, stored-cells capture iov.base want)
                (segments_loop-whole max_capture iovs (capture ++ cells cell iov.base want) (
                    ground (
                      arith,
                      length-append capture (cells cell iov.base want),
                      length-cells iov.base want,
                    ))
                  ∙ gathered_step max_capture iov capture (gathered cell iovs) h)
        ]

    segments_loop-raw :
        (addr count max_capture : ℕ)
        → let raw = cells cell addr (count * iovec_size) in
          (if length raw == 0
            then []
            else segments_loop memory max_capture (iovecs_of (length raw / iovec_size) raw) [])
          ≡ take max_capture (gathered cell (iovecs_at cell addr count))
    segments_loop-raw addr count max_capture =
        let raw = cells cell addr (count * iovec_size) in
        let long = length-cells addr (count * iovec_size) in
        elim (Bool-cases (length raw == 0)) [
          | inl nothing ↦
              let e : 0 ≡ count = ground arith in
              rw (nothing, sym e) (sym (take_all max_capture [] (omega arith)))
          | inr something ↦
              let e : length raw / iovec_size ≡ count = omega arith in
              rw (something, e, iovecs_of-cells addr count (count * iovec_size) refl)
                (segments_loop-whole max_capture (iovecs_at cell addr count) [] (omega arith))
        ]

-- Where the tracee's memory can be read, the capture is the beginning, as far as the buffer goes, of
-- what the first sixteen segments hold, one after the other.
pub capture_writev_whole :
    (cell : ℕ → ℕ) (memory : Memory) (iov_addr iovcnt max_capture : ℕ)
    → ((addr n : ℕ) → memory addr n ≡ some (cells cell addr n))
    → capture_writev memory iov_addr iovcnt max_capture
      ≡ take max_capture (gathered cell (iovecs_at cell iov_addr (min iovcnt max_writev_iovecs)))
unfolding capture_writev
capture_writev_whole cell memory iov_addr iovcnt max_capture reads =
    let count = if ltb max_writev_iovecs iovcnt then max_writev_iovecs else iovcnt in
    let e : count ≡ min iovcnt max_writev_iovecs = ground arith in
    elim (Bool-cases (iovcnt == 0)) [
      | inl nothing ↦
          let none_left : 0 ≡ iovcnt = ground arith in
          rw (nothing, sym none_left) (sym (take_all max_capture [] (omega arith)))
      | inr something ↦
          rw (something, read_remote-cells cell memory reads iov_addr (count * iovec_size), sym e)
            (segments_loop-raw cell memory reads iov_addr count max_capture)
    ]
