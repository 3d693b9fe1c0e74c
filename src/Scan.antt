-- ===== src/Scan.antt =====
-- backend/src/proc_scan.c: the scan of /proc for files that are deleted and still open.
-- Fields reads one process's attributes, OnePid decides which of its descriptors are reported,
-- Growth is the result list, and Threads splits the processes over workers and joins the results.
pub mod System
pub mod Growth
pub mod Fields
pub mod OnePid
pub mod Threads
pub mod Run
pub mod Sample
mod Examples
