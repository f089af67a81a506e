-- ===== src/BootInfo.antt =====
-- kernel/include/bootinfo.h: what the UEFI bootloader hands to the kernel. A list stands for the
-- array up to its count; a name is its bytes up to the terminating zero.
use micro_nt.Base.{ℕ, Bool, true, false, List}

abbrev pub bootinfo_magic : ℕ
bootinfo_magic = 0x544E424D01

pub data BootMemoryType : Type 0 where
  reserved available acpi nvs mmio loader : BootMemoryType

pub record BootMemoryEntry : Type 0 where
  pub base : ℕ
  pub length : ℕ
  pub type : BootMemoryType

pub record BootFile : Type 0 where
  pub name : List ℕ
  pub phys_base : ℕ
  pub size : ℕ

-- The fields that the memory manager and the file system read.
pub record BootInfo : Type 0 where
  pub magic : ℕ
  pub memory_map : List BootMemoryEntry
  pub boot_files : List BootFile
  pub efi_runtime_va : ℕ

-- e.type == BOOT_MEM_AVAILABLE
abbrev pub is_available : BootMemoryType → Bool
is_available available = true
is_available _ = false
