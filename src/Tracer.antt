-- ===== src/Tracer.antt =====
-- backend/src/tracer.c: a session that follows the threads of a process and reports what they write
-- to one descriptor. `Threads` is the table of threads, `Capture` reads the memory of the tracee,
-- `Session` is the main loop and `Attach` what comes before it. The kernel and the client enter as
-- their answers, and what the session asks of them is a list of actions.
pub mod Threads
pub mod Capture
pub mod Session
pub mod Attach
pub mod Registers
mod Examples
