-- ===== src/Gpu/Cuda/Memory/Blocks.antt =====
-- Blocks found after an allocation and a release.
use leanexe.Base.{ℕ, ◌+◌, ◌≡◌, ◌≢◌, ◌≤◌, refl, true, none, some, [], ◌∷◌, arith}
use leanexe.Gpu.Cuda.Memory.{Blocks, find_block, drop_block, covers}

pub covers-block :
    (p n base size : ℕ) (bs : Blocks)
    → find_block base bs ≡ some size
    → base ≤ p
    → p + n ≤ base + size
    → covers p n bs ≡ true
unfolding find_block covers
covers-block p n base size [] h a b = grind (arith, h)
covers-block p n base size ((other, m) ∷ bs) h a b = grind (arith, covers-block p n base size bs, h)

pub find-drop : (p q : ℕ) (bs : Blocks) → q ≢ p → find_block q (drop_block p bs) ≡ find_block q bs
unfolding find_block drop_block
find-drop p q [] h = refl
find-drop p q ((base, size) ∷ bs) h = ground (arith, find-drop p q bs h, h)

-- A block is still there after an allocation at a new address.
pub find-alloc :
    (p q n size : ℕ) (bs : Blocks)
    → find_block p bs ≡ none
    → find_block q bs ≡ some size
    → find_block q ((p, n) ∷ bs) ≡ some size
unfolding find_block
find-alloc p q n size bs fresh h = grind (arith, fresh, h)
