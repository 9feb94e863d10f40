-- ===== src/Ring.antt =====
-- The circular buffers of include/pgraft_core.h: a fixed array with the index of the oldest
-- element, the index of the next slot to write, and a count. src/pgraft_util.c writes the same
-- statements out for the command queue, the status buffer and the apply queue.
pub mod Window
pub mod Laws
use pgraft.Base.{ℕ, ◌+◌, ◌-◌, ◌%◌, List, get_or, set}

pub record Ring {ℓ} (A : Type ℓ) : Type ℓ where
  pub slots : List A
  pub head : ℕ
  pub tail : ℕ
  pub count : ℕ

module _ {ℓ} {A : Type ℓ} (cap : ℕ) where
  -- `slots[tail] = x; tail = (tail + 1) % cap; count++;`
  unfoldable pub push : A → Ring A → Ring A
  push x r = record r {
    slots = set r.slots r.tail x;
    tail = (r.tail + 1) % cap;
    count = r.count + 1;
  }

  -- `head = (head + 1) % cap; count--;`, which runs only where the count is not 0.
  unfoldable pub advance : Ring A → Ring A
  advance r = record r { head = (r.head + 1) % cap; count = r.count - 1 }
