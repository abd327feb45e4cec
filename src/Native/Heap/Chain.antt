-- ===== src/Native/Heap/Chain.antt =====
-- Lists as chains of records: `alloc_u64_chain` builds one, and `print_u64_chain` prints it.
use leanexe.Base.{ℕ, suc, ◌+◌, ◌*◌, ◌^◌, ◌≤◌, ◌<◌, ◌≡◌, refl, ◌∙◌, List, [], ◌∷◌, arith, length}
use leanexe.Base.Run.{Run, ok}
use leanexe.Native.Machine.{Store, Module, World}
use leanexe.Native.Memory.Blocks.{Small, Agree}
use leanexe.Native.Alloc.{alloc_u64_chain}
use leanexe.Native.Heap.{top, Fits, Grown, Allocator, IsRecord}
use leanexe.Native.Heap.Record.{IsRecord-Agree, alloc_cell-Builds}

pub Grown-refl : (s : Store) → Fits s → Grown 0 s s
Grown-refl s fits = record {
  fits = fits;
  grows = omega arith;
  bounded = omega arith;
  keeps = λ a _ _. refl;
}

pub Grown-trans : (j k n : ℕ) (s t u : Store) → Grown j s t → Grown k t u → j + k ≤ n → Grown n s u
Grown-trans j k n s t u g h e = record {
  fits = h.fits;
  grows = omega (arith, g.grows, h.grows);
  bounded = omega (arith, g.bounded, h.bounded);
  keeps = λ a lo hi. g.keeps a lo hi ∙ h.keeps a lo (omega (arith, g.grows));
}

-- From `p` the records between `lo` and `hi` hold the list `xs`, each above the ones behind it.
abbrev pub IsChain : (ℕ → ℕ) → ℕ → ℕ → ℕ → List ℕ → Type 0
IsChain m lo hi p [] = p ≡ 0
IsChain m lo hi p (x ∷ xs) =
    (a : ℕ) × (q : ℕ) × (p ≡ a + 48)
    × (lo ≤ a)
    × (a + 64 ≤ hi)
    × IsRecord m a 2 2 (x ∷ q ∷ [])
    × IsChain m lo a q xs

pub IsChain-Agree :
    (m m' : ℕ → ℕ) (lo hi p : ℕ) (xs : List ℕ)
    → Agree lo hi m m'
    → IsChain m lo hi p xs
    → IsChain m' lo hi p xs
IsChain-Agree m m' lo hi p [] same c = c
IsChain-Agree m m' lo hi p (x ∷ xs) same (a, q, e, low, high, r, rest) = (
  a,
  q,
  e,
  low,
  high,
  IsRecord-Agree lo hi a 2 2 (x ∷ q ∷ []) m m' same low (omega arith) r,
  IsChain-Agree m m' lo a q xs (λ b l h. same b l (omega arith)) rest,
)

module _ (m : Module) (al : Allocator m) where
  -- What a successful building of a list gives.
  abbrev pub Chains : List ℕ → World → Run World ℕ → Type 0
  Chains xs w r =
      (p : ℕ) × (s : Store) × (r ≡ ok p (record w { store = s }))
      × (p < 2 ^ 64)
      × Grown (71 * length xs) w.store s
      × IsChain s.memory (top w.store) (top s) p xs

  pub alloc_u64_chain-Chains :
      (xs : List ℕ) (w : World)
      → Small xs
      → Fits w.store
      → top w.store + 71 * length xs ≤ al.limit
      → Chains xs w (alloc_u64_chain m xs w)
  unfolding alloc_u64_chain
  alloc_u64_chain-Chains [] w small fits room =
      (0, w.store, refl, omega arith, Grown-refl w.store fits, refl)
  alloc_u64_chain-Chains (x ∷ xs) w (v, small) fits room =
      let (q, s1, built, short, grown, chain) =
        alloc_u64_chain-Chains xs w small fits (omega arith) in
      let (s2, placed, cell) =
        alloc_cell-Builds m al x q (record w { store = s1 }) grown.fits
          (omega (arith, grown.bounded)) v short in
      (
        top s1 + 48,
        s2,
        rw (built, placed),
        omega (arith, cell.grown.fits.inside, cell.grown.fits.pages, cell.room),
        Grown-trans (71 * length xs) 71 (71 * suc (length xs)) w.store s1 s2 grown cell.grown
            (omega arith),
        (
          top s1,
          q,
          refl,
          grown.grows,
          omega (arith, cell.room),
          cell.made,
          IsChain-Agree s1.memory s2.memory (top w.store) (top s1) q xs
              (λ b l h. cell.grown.keeps b (omega arith) h) chain,
        ),
      )
