-- ===== src/Tracer/Capture/Segments.antt =====
-- How much `capture_writev` stores, and what.
use hsed.Base.{
  ℕ, ◌-◌, ◌*◌, ◌/◌, ◌≤◌, ◌≡◌, inl, inr, some, Option-cases, List, [], ◌∷◌, ◌++◌, length,
  length-append, ltb, if◌then◌else◌, arith,
}
use hsed.Tracer.Capture.{
  Memory, max_writev_iovecs, iovec_size, RemoteIovec, iovecs_of, read_remote, segments_loop,
  capture_writev,
}

-- `process_vm_readv` never reads more than it was asked for.
abbrev pub IsBounded : Memory → Type 0
IsBounded memory =
    (addr len : ℕ) (bytes : List ℕ) → memory addr len ≡ some bytes → length bytes ≤ len

pub length-read_remote :
    (memory : Memory) (addr len : ℕ) → IsBounded memory → length (read_remote memory addr len) ≤ len
unfolding read_remote
length-read_remote memory addr len h = elim (Option-cases (memory addr len)) [
  | inl failed ↦ rw (failed, read_remote) (omega arith)
  | inr (bytes, read) ↦ rw (read, read_remote) (h addr len bytes read)
]

length-segments_loop :
    (memory : Memory) (max_capture : ℕ) (iovs : List RemoteIovec) (capture : List ℕ)
    → IsBounded memory
    → length capture ≤ max_capture
    → length (segments_loop memory max_capture iovs capture) ≤ max_capture
unfolding segments_loop
length-segments_loop memory max_capture [] capture h k = k
length-segments_loop memory max_capture (iov ∷ iovs) capture h k =
    let space = max_capture - length capture in
    let want = if ltb space iov.len then space else iov.len in
    let bytes = read_remote memory iov.base want in
    ground (
      arith,
      length-read_remote memory iov.base want h,
      length-append capture bytes,
      length-segments_loop memory max_capture iovs capture h,
      length-segments_loop memory max_capture iovs (capture ++ bytes) h,
    )

-- Whatever the tracee's memory holds, the capture ends inside its buffer.
pub capture_writev_bounds :
    (memory : Memory) (iov_addr iovcnt max_capture : ℕ)
    → IsBounded memory
    → length (capture_writev memory iov_addr iovcnt max_capture) ≤ max_capture
unfolding capture_writev
capture_writev_bounds memory iov_addr iovcnt max_capture h =
    let count = if ltb max_writev_iovecs iovcnt then max_writev_iovecs else iovcnt in
    let raw = read_remote memory iov_addr (count * iovec_size) in
    ground (
      arith,
      length-segments_loop memory max_capture (iovecs_of (length raw / iovec_size) raw) [] h,
    )
