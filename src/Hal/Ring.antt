-- ===== src/Hal/Ring.antt =====
-- The ring buffer of kernel/hal/x64/keyboard.cpp and kernel/hal/x64/mouse.cpp: the slot at the tail
-- stays free, so that `cap` slots hold at most `cap - 1` items. The source writes `% cap` as a mask.
pub mod Queue
use micro_nt.Base.{ℕ, ◌+◌, ◌%◌, Option, none, some, ◌==◌, if◌then◌else◌, update}

pub record Ring {ℓ} (A : Type ℓ) : Type ℓ where
  pub ring : ℕ → A
  pub head : ℕ
  pub tail : ℕ

module _ {ℓ} {A : Type ℓ} where
  pub push : ℕ → A → Ring A → Ring A
  push cap c r =
      let next = (r.tail + 1) % cap in
      if next == r.head then r else record r { ring = update r.ring r.tail c; tail = next }

  pub try_read : ℕ → Ring A → Option A × Ring A
  try_read cap r =
      if r.head == r.tail
      then (none, r)
      else (some (r.ring r.head), record r { head = (r.head + 1) % cap })
