-- ===== src/Native/Heap.antt =====
-- What the host relies on in the module's `alloc` export, which the build generates from
-- LeanExe/Runtime/Defs.lean (`allocBody`): with no block on the free list, the block for a positive
-- number of bytes is 48 bytes of header and the payload, rounded up to whole words, at the top of the
-- used memory, with the magic number and the count 1 in the header, and the call does not trap while
-- the blocks stay below `limit`. And the layout of the records that the host builds.
pub mod Runtime
pub mod Record
pub mod Checks
pub mod Chain
pub mod ChainPrint
pub mod Tree
pub mod TreePrint
pub mod Arguments
use leanexe.Base.{ℕ, ◌+◌, ◌*◌, ◌^◌, ◌≤◌, ◌<◌, ◌≡◌, Option, some, List, [], ◌∷◌, codes}
use leanexe.Native.Machine.{Store, Export, Module, World, find_export}
use leanexe.Native.Memory.Access.{word_at}
use leanexe.Native.Memory.Blocks.{Holds, Agree}
use leanexe.Native.Show.{object_magic}

-- Global 0 is the end of the used memory, and global 1 the first free block, or 0.
abbrev pub top : Store → ℕ
top s = s.globals 0

-- `lx_pages` is an unsigned int, the used memory lies in the pages, and no block is free.
pub record Fits (s : Store) : Type 0 where
  pub pages : s.pages < 2 ^ 32
  pub inside : top s ≤ s.pages * 65536
  pub none_free : s.globals 1 ≡ 0

-- From `s` to `t` the used memory grew, by at most `most` bytes, and what was in use is unchanged.
pub record Grown (most : ℕ) (s t : Store) : Type 0 where
  pub fits : Fits t
  pub grows : top s ≤ top t
  pub bounded : top t ≤ top s + most
  pub keeps : Agree 0 (top s) s.memory t.memory

-- `t` is `s` after a block with a payload of `len` bytes is taken.
pub record Placed (len : ℕ) (s t : Store) : Type 0 where
  pub status : t.status ≡ 0
  pub grown : Grown (len + 55) s t
  pub room : top s + 48 + len ≤ top t
  pub magic : word_at t.memory (top s) ≡ object_magic
  pub count : word_at t.memory (top s + 8) ≡ 1

pub record Allocator (m : Module) : Type 0 where
  pub export : Export
  pub found : find_export m (codes "alloc") ≡ some export
  pub limit : ℕ
  -- `host_invoke` clears the status before the call.
  pub places :
      (len : ℕ) (s : Store)
      → 0 < len
      → Fits s
      → top s + 55 + len ≤ limit
      → (t : Store) × (export.call (len ∷ []) (record s { status = 0 }) ≡ (t, (top s + 48) ∷ []))
        × Placed len s t

-- A record at the block `a`: its pointer is `a + 48`.
pub record IsRecord (m : ℕ → ℕ) (a width mask : ℕ) (slots : List ℕ) : Type 0 where
  pub magic : word_at m a ≡ object_magic
  pub count : word_at m (a + 8) ≡ 1
  pub body : Holds m (a + 24) (1 ∷ width ∷ mask ∷ slots)
