-- ===== src/Hal.antt =====
-- The drivers of kernel/hal/x64 that hand input to the kernel, and the ring buffer that both have.
pub mod Ring
pub mod Keyboard
pub mod Mouse
mod Tests
