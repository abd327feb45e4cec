-- ===== src/Gpu/Cuda/Memory.antt =====
-- The memory of the device as the calls of tools/cuda-host.c use it: blocks that cuMemAlloc gave and
-- cuMemFree has not released.
pub mod Blocks
pub mod Owns
pub mod Calls
pub mod Release
pub mod Session
pub mod Commands
pub mod Kernels
pub mod Uploads
pub mod Run
pub mod Main
use leanexe.Base.{
  ℕ, ◌+◌, ◌*◌, ◌≡◌, ◌≢◌, Bool, true, false, ◌&&◌, ◌||◌, Option, none, some, List, [], ◌∷◌, leb,
  ◌==◌, if◌then◌else◌, length,
}
use leanexe.Gpu.Cuda.Driver.{Call, Driver}

-- A block's address and its size in bytes.
abbrev pub Blocks : Type 0
Blocks = List (ℕ × ℕ)

-- The size of the block at an address.
unfoldable pub find_block : ℕ → Blocks → Option ℕ
find_block p [] = none
find_block p ((base, size) ∷ bs) = if base == p then some size else find_block p bs

unfoldable pub drop_block : ℕ → Blocks → Blocks
drop_block p [] = []
drop_block p ((base, size) ∷ bs) = if base == p then bs else (base, size) ∷ drop_block p bs

-- Whether the `n` bytes at `p` lie in one block.
unfoldable pub covers : ℕ → ℕ → Blocks → Bool
covers p n [] = false
covers p n ((base, size) ∷ bs) = (leb base p && leb (p + n) (base + size)) || covers p n bs

unfoldable pub is_block : Option ℕ → Bool
is_block none = false
is_block (some size) = true

unfoldable pub all_blocks : List ℕ → Blocks → Bool
all_blocks [] bs = true
all_blocks (p ∷ ps) bs = is_block (find_block p bs) && all_blocks ps bs

unfoldable pub guard : Bool → Blocks → Option Blocks
guard b bs = if b then some bs else none

-- The blocks after a call with its result and value; `none` where a call has read, written or
-- launched outside the blocks, or released what is no block.
unfoldable pub memory_step : ℕ → ℕ → Call → Option Blocks → Option Blocks
memory_step result value c none = none
memory_step result value (Call.mem_alloc n) (some bs) =
    if result == 0 then some ((value, n) ∷ bs) else some bs
memory_step result value (Call.copy_to_device p words) (some bs) =
    guard (covers p (4 * length words) bs) bs
memory_step result value (Call.copy_from_device p n) (some bs) = guard (covers p n bs) bs
memory_step result value (Call.memset p word count) (some bs) = guard (covers p (4 * count) bs) bs
memory_step result value (Call.launch function blocks params) (some bs) =
    guard (all_blocks params bs) bs
memory_step result value (Call.mem_free p) (some bs) =
    guard (is_block (find_block p bs)) (drop_block p bs)
memory_step result value c (some bs) = some bs

-- The calls, the latest first.
unfoldable pub blocks_after : Driver → List Call → Option Blocks
blocks_after d [] = some []
blocks_after d (c ∷ calls) =
    memory_step (d.result calls c) (d.value calls c) c (blocks_after d calls)

-- Every call has used blocks only.
unfoldable pub IsInside : Driver → List Call → Type 0
IsInside d calls = (bs : Blocks) × (blocks_after d calls ≡ some bs)

-- What cuMemAlloc promises: a successful call gives an address that is not NULL and not that of a
-- block.
unfoldable pub Allocates : Driver → Type 0
Allocates d =
    (calls : List Call) (n : ℕ) (bs : Blocks)
    → blocks_after d calls ≡ some bs
    → d.result calls (Call.mem_alloc n) ≡ 0
    → (d.value calls (Call.mem_alloc n) ≢ 0)
      × (find_block (d.value calls (Call.mem_alloc n)) bs ≡ none)
