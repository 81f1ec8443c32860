-- ===== src/Longsoak.antt =====
-- bench/longsoak.py: the requests in flight and the pauses for samples.
pub mod Busy
pub mod Pause
pub mod Sample
pub mod Report
pub mod Judged
mod Tests
