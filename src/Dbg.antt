-- ===== src/Dbg.antt =====
-- The debugger's core (src/dbg/core.c, include/buxn/dbg/core.h).
pub mod State
pub mod Match
pub mod Hook
pub mod Table
pub mod Shortcut
pub mod Frame
pub mod Targets
pub mod Watch
pub mod Wire
pub mod Pause
pub mod Access
pub mod Idle
pub mod Transcript
pub mod ClientTests
pub mod Tests
