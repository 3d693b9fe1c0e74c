-- ===== src/Tracer/Session/Captured.antt =====
-- The bytes that a report carries, where the tracee's memory can be read.
use hsed.Base.{
  ℕ, ◌<◌, ◌≡◌, ap, ◌∙◌, pos, ltb_ℤ, Bool, true, false, some, take, min, ltb, if◌then◌else◌, arith,
}
use hsed.Tracer.Capture.{Memory, max_writev_iovecs, read_remote, capture_writev}
use hsed.Tracer.Capture.Whole.{cells, iovecs_at, gathered, read_remote-cells, capture_writev_whole}
use hsed.Tracer.Session.{Target, captured_bytes}

-- Where the tracee's memory can be read and `n` bytes were written, the report of a `write` carries
-- these bytes, as far as the buffer goes. The report of a `writev` carries the beginning, as far as
-- the buffer goes, of what the first sixteen segments hold, one after the other, whatever `n` is.
pub captured_bytes_whole :
    (target : Target) (cell : ℕ → ℕ) (memory : Memory) (is_writev : Bool) (addr iovcnt n : ℕ)
    → ((at length : ℕ) → memory at length ≡ some (cells cell at length))
    → 0 < n
    → captured_bytes target memory is_writev addr iovcnt (pos n) ≡ (
        if is_writev
        then take target.max_capture
            (gathered cell (iovecs_at cell addr (min iovcnt max_writev_iovecs)))
        else cells cell addr (min n target.max_capture))
unfolding captured_bytes
captured_bytes_whole target cell memory is_writev addr iovcnt n reads h =
    rw (positive, captured_bytes) (read is_writev)
  where
    positive : ltb_ℤ (pos 0) (pos n) ≡ true
    positive = ground arith

    want : ℕ
    want = if ltb n target.max_capture then n else target.max_capture

    smaller : want ≡ min n target.max_capture
    smaller = ground arith

    read :
        (b : Bool)
        → (if b
            then capture_writev memory addr iovcnt target.max_capture
            else read_remote memory addr want)
          ≡ (if b
              then take target.max_capture
                  (gathered cell (iovecs_at cell addr (min iovcnt max_writev_iovecs)))
              else cells cell addr (min n target.max_capture))
    read true = capture_writev_whole cell memory addr iovcnt target.max_capture reads
    read false = read_remote-cells cell memory reads addr want ∙ ap (cells cell addr) smaller
