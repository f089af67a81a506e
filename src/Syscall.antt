-- ===== src/Syscall.antt =====
-- kernel/syscall/syscall.cpp: the services behind KiSystemCall, by what they work on, with the statuses that
-- they return.
pub mod Wait
pub mod Memory
pub mod Files
pub mod Line
mod Tests

pub data Status : Type 0 where
  success timeout unsuccessful invalid_handle invalid_parameter not_found : Status
  mutant_not_owned info_length_mismatch : Status
