-- ===== src/Tracer/Session/Stored.antt =====
-- How many bytes a report carries, and which.
use hsed.Base.{
  ℕ, ◌-◌, ◌*◌, ◌/◌, ◌≤◌, ◌≡◌, inl, inr, ℤ, pos, pos_part, ltb_ℤ, Bool, true, false, some,
  Option-cases, List, [], ◌∷◌, ◌++◌, All-append, length, ltb, ◌==◌, if◌then◌else◌, arith,
}
use hsed.Base64.RoundTrip.{IsBytes}
use hsed.Tracer.Capture.{
  Memory, max_writev_iovecs, iovec_size, RemoteIovec, iovecs_of, read_remote, segments_loop,
  capture_writev,
}
use hsed.Tracer.Capture.Segments.{IsBounded, length-read_remote, capture_writev_bounds}
use hsed.Tracer.Session.{Target, captured_bytes}

-- `process_vm_readv` gives bytes, and never more than it was asked for.
pub record IsReal (memory : Memory) : Type 0 where
  pub bounded : IsBounded memory
  pub bytes : (addr len : ℕ) (s : List ℕ) → memory addr len ≡ some s → IsBytes s

if-IsBytes : (b : Bool) (s t : List ℕ) → IsBytes s → IsBytes t → IsBytes (if b then s else t)
if-IsBytes true s t h k = h
if-IsBytes false s t h k = k

module _ (memory : Memory) (real : IsReal memory) where
  read_remote-IsBytes : (addr len : ℕ) → IsBytes (read_remote memory addr len)
  unfolding read_remote
  read_remote-IsBytes addr len = elim (Option-cases (memory addr len)) [
    | inl failed ↦ rw (failed, read_remote) tt
    | inr (s, read) ↦ rw (read, read_remote) (real.bytes addr len s read)
  ]

  segments_loop-IsBytes :
      (max_capture : ℕ) (iovs : List RemoteIovec) (capture : List ℕ)
      → IsBytes capture
      → IsBytes (segments_loop memory max_capture iovs capture)
  unfolding segments_loop
  segments_loop-IsBytes max_capture [] capture h = h
  segments_loop-IsBytes max_capture (iov ∷ iovs) capture h =
      let space = max_capture - length capture in
      let want = if ltb space iov.len then space else iov.len in
      if-IsBytes (ltb (length capture) max_capture) _ _
        (segments_loop-IsBytes max_capture iovs _ (
          if-IsBytes (want == 0) capture (capture ++ read_remote memory iov.base want) h (
            All-append _ capture (read_remote memory iov.base want) h
              (read_remote-IsBytes iov.base want))))
        h

  capture_writev-IsBytes :
      (addr iovcnt max_capture : ℕ) → IsBytes (capture_writev memory addr iovcnt max_capture)
  unfolding capture_writev
  capture_writev-IsBytes addr iovcnt max_capture =
      let count = if ltb max_writev_iovecs iovcnt then max_writev_iovecs else iovcnt in
      let raw = read_remote memory addr (count * iovec_size) in
      let iovs = iovecs_of (length raw / iovec_size) raw in
      if-IsBytes (iovcnt == 0) [] _ tt (
        if-IsBytes (length raw == 0) [] (segments_loop memory max_capture iovs []) tt
          (segments_loop-IsBytes max_capture iovs [] tt))

  pub captured_bytes-IsBytes :
      (target : Target) (is_writev : Bool) (addr iovcnt : ℕ) (ret : ℤ)
      → IsBytes (captured_bytes target memory is_writev addr iovcnt ret)
  unfolding captured_bytes
  captured_bytes-IsBytes target is_writev addr iovcnt ret =
      if-IsBytes (ltb_ℤ (pos 0) ret) _ _
        (if-IsBytes is_writev (capture_writev memory addr iovcnt target.max_capture) _
          (capture_writev-IsBytes addr iovcnt target.max_capture) (read_remote-IsBytes addr _))
        tt

  pub captured_bytes_bounds :
      (target : Target) (is_writev : Bool) (addr iovcnt : ℕ) (ret : ℤ)
      → length (captured_bytes target memory is_writev addr iovcnt ret) ≤ target.max_capture
  unfolding captured_bytes
  captured_bytes_bounds target is_writev addr iovcnt ret =
      let want =
        if ltb (pos_part ret) target.max_capture then pos_part ret else target.max_capture in
      ground (
        arith,
        capture_writev_bounds memory addr iovcnt target.max_capture real.bounded,
        length-read_remote memory addr want real.bounded,
      )
