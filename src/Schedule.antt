-- ===== src/Schedule.antt =====
-- Recurring schedules: backend/app/core/stream_schedule.py.
pub mod Zone
pub mod Normalize
pub mod Next
pub mod Stop
mod Tests
