-- ===== src/Capture.antt =====
-- The capture page, apps/web/src/routes/capture.tsx, part by part.
pub mod Types
pub mod Roster
pub mod Page
pub mod Messages
pub mod Socket
pub mod Worker
pub mod RtspPoll
pub mod Starting
pub mod Ending
pub mod Feed
mod Tests
