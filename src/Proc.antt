-- ===== src/Proc.antt =====
-- kernel/proc.c, process table and scheduler.
pub mod Types
pub mod Sched
pub mod Sleep
pub mod Control
pub mod Services
pub mod Life
pub mod Exit
mod Tests
