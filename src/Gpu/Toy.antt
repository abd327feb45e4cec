-- ===== src/Gpu/Toy.antt =====
-- The small driver gives the address of a new block.
use leanexe.Base.{
  ℕ, ◌+◌, ◌*◌, ◌≡◌, ◌≤◌, ◌<◌, refl, ap, sym, ◌∙◌, inl, inr, Bool, true, false, Option-cases, none,
  some, List, [], ◌∷◌, ◌==◌, if◌then◌else◌, arith, length,
}
use mathlib.Core.Path.{subst}
use leanexe.Gpu.Cuda.Driver.{Call}
use leanexe.Gpu.Cuda.Memory.{
  Blocks, find_block, drop_block, memory_step, blocks_after, guard, Allocates,
}
use leanexe.Gpu.Examples.{toy_driver}

-- Every block starts below `m`.
IsBelow : ℕ → Blocks → Type 0
IsBelow m [] = Unit
IsBelow m ((base, size) ∷ bs) = (base < m) × IsBelow m bs

IsBelow-mono : (m n : ℕ) (bs : Blocks) → m ≤ n → IsBelow m bs → IsBelow n bs
unfolding IsBelow
IsBelow-mono m n [] h b = tt
IsBelow-mono m n ((base, size) ∷ bs) h (a, b) = (omega (arith, a, h), IsBelow-mono m n bs h b)

either_IsBelow :
    (m : ℕ) (b : Bool) (bs cs : Blocks)
    → IsBelow m bs
    → IsBelow m cs
    → IsBelow m (if b then bs else cs)
either_IsBelow m true bs cs h k = h
either_IsBelow m false bs cs h k = k

drop_block-IsBelow : (m p : ℕ) (bs : Blocks) → IsBelow m bs → IsBelow m (drop_block p bs)
unfolding IsBelow drop_block
drop_block-IsBelow m p [] b = tt
drop_block-IsBelow m p ((base, size) ∷ bs) (a, b) =
    either_IsBelow m (base == p) bs ((base, size) ∷ drop_block p bs) b
      (a, drop_block-IsBelow m p bs b)

find_block-IsBelow : (m : ℕ) (bs : Blocks) → IsBelow m bs → find_block m bs ≡ none
unfolding IsBelow find_block
find_block-IsBelow m [] b = refl
find_block-IsBelow m ((base, size) ∷ bs) (a, b) = ground (arith, find_block-IsBelow m bs b, a)

abbrev Steps : ℕ → ℕ → Call → Type 0
Steps m n c =
    (r v : ℕ) (bs after : Blocks)
    → IsBelow m bs
    → v < n
    → memory_step r v c (some bs) ≡ some after
    → IsBelow n after

module _ (m n : ℕ) (h : m ≤ n) where
  Steps-same : (bs after : Blocks) → IsBelow m bs → some bs ≡ some after → IsBelow n after
  Steps-same bs after b e = subst (IsBelow n) (grind (arith, e)) (IsBelow-mono m n bs h b)

  Steps-guard :
      (c : Bool) (bs after : Blocks) → IsBelow m bs → guard c bs ≡ some after → IsBelow n after
  unfolding guard
  Steps-guard true bs after b e = Steps-same bs after b e
  Steps-guard false bs after b e = absurd (grind (arith, e))

  Steps-alloc :
      (fails : Bool) (v size : ℕ) (bs after : Blocks)
      → IsBelow m bs
      → v < n
      → (if fails then some ((v, size) ∷ bs) else some bs) ≡ some after
      → IsBelow n after
  unfolding IsBelow
  Steps-alloc true v size bs after b less e =
      let same : (v, size) ∷ bs ≡ after = grind (arith, e) in
      subst (IsBelow n) same (less, IsBelow-mono m n bs h b)
  Steps-alloc false v size bs after b less e = Steps-same bs after b e

  Steps-any : (c : Call) → Steps m n c
  unfolding memory_step
  Steps-any (Call.mem_alloc size) r v bs after b less e =
      Steps-alloc (r == 0) v size bs after b less e
  Steps-any (Call.copy_to_device p words) r v bs after b less e = Steps-guard _ bs after b e
  Steps-any (Call.copy_from_device p k) r v bs after b less e = Steps-guard _ bs after b e
  Steps-any (Call.memset p word count) r v bs after b less e = Steps-guard _ bs after b e
  Steps-any (Call.launch function blocks ps) r v bs after b less e = Steps-guard _ bs after b e
  Steps-any (Call.mem_free p) r v bs after b less e =
      Steps-guard _ (drop_block p bs) after (drop_block-IsBelow m p bs b) e
  Steps-any c r v bs after b less e = Steps-same bs after b e

abbrev address : List Call → ℕ
address calls = 256 * (length calls + 1)

nothing_after : (c : Call) (v : ℕ) (bs : Blocks) → memory_step 0 v c none ≡ some bs → ⊥
unfolding memory_step
nothing_after c v bs e = grind (arith, e)

blocks-IsBelow :
    (calls : List Call) (bs : Blocks)
    → blocks_after toy_driver calls ≡ some bs
    → IsBelow (address calls) bs
unfolding blocks_after IsBelow
blocks-IsBelow [] bs e = Steps-same 0 256 (omega arith) [] bs tt e
blocks-IsBelow (c ∷ calls) bs e = elim (Option-cases (blocks_after toy_driver calls)) [
  | inl broken ↦
      absurd
        (nothing_after c (address calls) bs (sym (ap (memory_step 0 (address calls) c) broken) ∙ e))
  | inr (before, kept) ↦
      Steps-any (address calls) (address (c ∷ calls)) (omega arith) c 0 (address calls) before bs
        (blocks-IsBelow calls before kept) (omega arith)
        (sym (ap (memory_step 0 (address calls) c) kept) ∙ e)
]

pub toy_driver-Allocates : Allocates toy_driver
unfolding Allocates
toy_driver-Allocates calls n bs e success = (
  λ h. absurd (omega (arith, h)),
  find_block-IsBelow (address calls) bs (blocks-IsBelow calls bs e),
)
