-- ===== src/Device.antt =====
-- The varvara devices (src/devices/, include/buxn/devices/).
pub mod Vector
pub mod System
pub mod Console
pub mod Buttons
pub mod Audio
pub mod Screen
pub mod Datetime
pub mod File
pub mod Tests
