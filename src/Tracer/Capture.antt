-- ===== src/Tracer/Capture.antt =====
-- `read_remote` and `capture_writev` of backend/src/tracer.c. The memory of the tracee is a function:
-- what `process_vm_readv` reads of so many bytes at an address, or `none` where it fails.
pub mod Segments
pub mod Whole
use hsed.Base.{
  ℕ, zero, suc, ◌+◌, ◌-◌, ◌*◌, ◌/◌, Bool, true, false, Option, none, some, List, [], ◌∷◌, ◌++◌,
  length, take, drop, ltb, ◌==◌, if◌then◌else◌,
}

abbrev pub Memory : Type 0
Memory = ℕ → ℕ → Option (List ℕ)

abbrev pub max_writev_iovecs : ℕ
max_writev_iovecs = 16

-- `struct remote_iovec`, and its size.
pub record RemoteIovec : Type 0 where
  pub base : ℕ
  pub len : ℕ

abbrev pub iovec_size : ℕ
iovec_size = 16

-- A number in memory, its lowest byte first.
unfoldable pub le_number : List ℕ → ℕ
le_number [] = 0
le_number (b ∷ bytes) = b + 256 * le_number bytes

-- The bytes of `iovs` as the array that they stand for.
unfoldable pub iovecs_of : ℕ → List ℕ → List RemoteIovec
unfolding le_number
iovecs_of zero raw = []
iovecs_of (suc n) raw =
    record { base = le_number (take 8 raw); len = le_number (take 8 (drop 8 raw)) }
    ∷ iovecs_of n (drop iovec_size raw)

-- The bytes that `read_remote` stores; none where its result is 0 or -1.
unfoldable pub read_remote : Memory → ℕ → ℕ → List ℕ
read_remote memory addr len = elim (memory addr len) [ none ↦ [] | some bytes ↦ bytes ]

-- The loop over the segments; `capture` is what is stored so far, so its length is `total`.
unfoldable pub segments_loop : Memory → ℕ → List RemoteIovec → List ℕ → List ℕ
unfolding read_remote
segments_loop memory max_capture [] capture = capture
segments_loop memory max_capture (iov ∷ iovs) capture =
    let space = max_capture - length capture in
    let want = if ltb space iov.len then space else iov.len in
    let stored = if want == 0 then capture else capture ++ read_remote memory iov.base want in
    let rest = segments_loop memory max_capture iovs stored in
    if ltb (length capture) max_capture then rest else capture

unfoldable pub capture_writev : Memory → ℕ → ℕ → ℕ → List ℕ
unfolding read_remote iovecs_of segments_loop
capture_writev memory iov_addr iovcnt max_capture =
    let count = if ltb max_writev_iovecs iovcnt then max_writev_iovecs else iovcnt in
    let raw = read_remote memory iov_addr (count * iovec_size) in
    if iovcnt == 0
    then []
    else if length raw == 0
    then []
    else segments_loop memory max_capture (iovecs_of (length raw / iovec_size) raw) []
