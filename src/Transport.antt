-- ===== src/Transport.antt =====
-- tirbase-core/src/transport: priority classes, the scheduler, Saturate_Mode and fragmentation.
pub mod Priority
pub mod Scheduler
pub mod Saturate
pub mod Fragment
