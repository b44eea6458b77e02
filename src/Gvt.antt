-- ===== src/Gvt.antt =====
-- gvt/: how the processors agree on a time that the simulation has passed (the global virtual time).
pub mod Trigger
pub mod Phased
pub mod Network
pub mod Late
mod Tests
