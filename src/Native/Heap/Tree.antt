-- ===== src/Native/Heap/Tree.antt =====
-- Binary trees of words: `alloc_u64_tree` builds the tree that a text describes.
use Prim.Native.Nat.{max}
use leanexe.Base.{
  ℕ, zero, suc, ◌+◌, ◌*◌, ◌^◌, ◌≤◌, ◌<◌, ◌≡◌, refl, ◌∙◌, false, [], ◌∷◌, ◌++◌, append_assoc, arith,
  length, Text, text_eq, codes, ◌==◌,
}
use leanexe.Base.Decimal.{decimal, is_digit}
use leanexe.Base.Decimal.RoundTrip.{IsDigits, decimal-IsDigits, decimal-length}
use leanexe.Base.Run.{Run, ok, and_then, pure, ◌>>=◌}
use leanexe.Native.Machine.{Store, Module, World}
use leanexe.Native.Memory.Blocks.{Agree}
use leanexe.Native.Parse.Numbers.{host_parse_u64-decimal, IsDigits-NoComma}
use leanexe.Native.Parse.Tokens.{Rest, comma, behind, read_token-ok, decimal-lt}
use leanexe.Native.Alloc.{alloc_u64_tree, alloc_node}
use leanexe.Native.Heap.{top, Fits, Grown, Allocator, IsRecord}
use leanexe.Native.Heap.Record.{IsRecord-Agree, alloc_node-Builds}
use leanexe.Native.Heap.Chain.{Grown-refl, Grown-trans}

pub data Tree : Type 0 where
  leaf : Tree
  node : Tree → ℕ → Tree → Tree

-- The preorder description: `.` for a leaf, and for a node its key and its subtrees.
unfoldable pub tree_text : Tree → Text
tree_text leaf = codes "."
tree_text (node l k r) = decimal k ++ (b',' ∷ (tree_text l ++ b',' ∷ tree_text r))

abbrev pub size : Tree → ℕ
size leaf = 0
size (node l k r) = size l + size r + 1

abbrev pub SmallKeys : Tree → Type 0
SmallKeys leaf = Unit
SmallKeys (node l k r) = SmallKeys l × (k < 2 ^ 64) × SmallKeys r

-- From `p` the records between `lo` and `hi` hold the tree: the left subtree's lie below the right
-- subtree's, and the root's is above both.
abbrev pub IsTree : (ℕ → ℕ) → ℕ → ℕ → ℕ → Tree → Type 0
IsTree m lo hi p leaf = p ≡ 0
IsTree m lo hi p (node l k r) =
    (a : ℕ) × (mid : ℕ) × (q : ℕ) × (q' : ℕ) × (p ≡ a + 48)
    × (lo ≤ mid)
    × (mid ≤ a)
    × (a + 72 ≤ hi)
    × IsRecord m a 3 5 (q ∷ k ∷ q' ∷ [])
    × IsTree m lo mid q l
    × IsTree m mid a q' r

pub IsTree-Agree :
    (m m' : ℕ → ℕ) (lo hi p : ℕ) (t : Tree)
    → Agree lo hi m m'
    → IsTree m lo hi p t
    → IsTree m' lo hi p t
IsTree-Agree m m' lo hi p leaf same c = c
IsTree-Agree m m' lo hi p (node l k r) same (a, mid, q, q', e, low, mids, high, rec, left, right) =
    (
      a,
      mid,
      q,
      q',
      e,
      low,
      mids,
      high,
      IsRecord-Agree lo hi a 3 5 (q ∷ k ∷ q' ∷ []) m m' same (omega arith) (omega arith) rec,
      IsTree-Agree m m' lo mid q l (λ b i h. same b i (omega arith)) left,
      IsTree-Agree m m' mid a q' r (λ b i h. same b (omega arith) (omega arith)) right,
    )

not_dot : (t : Text) → 0 < length t → IsDigits t → text_eq t (codes ".") ≡ false
unfolding text_eq is_digit
not_dot [] h _ = absurd (omega arith)
not_dot (c ∷ t) h (digit, _) = let other : (c == b'.') ≡ false = ground arith in rw other

decimal-not_dot : (k : ℕ) → text_eq (decimal k) (codes ".") ≡ false
decimal-not_dot k = not_dot (decimal k) (decimal-length k) (decimal-IsDigits k)

-- The height, by which the recursion is bounded.
abbrev pub height : Tree → ℕ
height leaf = 1
height (node l k r) = suc (max (height l) (height r))

module _ (m : Module) (al : Allocator m) where
  abbrev pub Grows : Tree → Text → World → Run World (ℕ × Text) → Type 0
  Grows t rest w r =
      (p : ℕ) × (s : Store) × (r ≡ ok (p, behind rest) (record w { store = s }))
      × (p < 2 ^ 64)
      × Grown (79 * size t) w.store s
      × IsTree s.memory (top w.store) (top s) p t

  read_leaf :
      (f : ℕ) {rest : Text} (w : World)
      → Rest rest
      → alloc_u64_tree m (suc f) (codes "." ++ rest) w ≡ ok (0, behind rest) w
  unfolding alloc_u64_tree text_eq
  read_leaf f w end = rw (read_token-ok (codes ".") w end (refl, tt) (omega arith) (omega arith))

  read_node :
      (f k : ℕ) (s : Text) (w : World)
      → k < 2 ^ 64
      → alloc_u64_tree m (suc f) (decimal k ++ b',' ∷ s) w
        ≡ (do
          (left, text) ← alloc_u64_tree m f s
          (right, text) ← alloc_u64_tree m f text
          cell ← alloc_node m left k right
          pure (cell, text))
            w
  unfolding alloc_u64_tree
  read_node f k s w small = rw (
    read_token-ok (decimal k) w (comma s) (IsDigits-NoComma _ (decimal-IsDigits k))
        (decimal-length k) (decimal-lt k small),
    and_then,
    decimal-not_dot k,
    host_parse_u64-decimal k w small,
  )

  pub alloc_u64_tree-Grows :
      (t : Tree) (f : ℕ) {rest : Text} (w : World)
      → Rest rest
      → height t ≤ f
      → SmallKeys t
      → Fits w.store
      → top w.store + 79 * size t ≤ al.limit
      → Grows t rest w (alloc_u64_tree m f (tree_text t ++ rest) w)
  unfolding tree_text
  alloc_u64_tree-Grows leaf zero w end fuel _ fits room = absurd (omega arith)
  alloc_u64_tree-Grows leaf (suc f) w end fuel _ fits room =
      (0, w.store, read_leaf f w end, omega arith, Grown-refl w.store fits, refl)
  alloc_u64_tree-Grows (node l k r) zero w end fuel _ fits room = absurd (omega arith)
  alloc_u64_tree-Grows (node l k r) (suc f) {rest} w end fuel (sl, sk, sr) fits room =
      let (q, s1, e1, short1, g1, t1) =
        alloc_u64_tree-Grows l f w (comma (tree_text r ++ rest)) (omega arith) sl fits
          (omega arith) in
      let w1 : World = record w { store = s1 } in
      let (q', s2, e2, short2, g2, t2) =
        alloc_u64_tree-Grows r f w1 end (omega arith) sr g1.fits (omega (arith, g1.bounded)) in
      let w2 : World = record w { store = s2 } in
      let (s3, e3, cell) =
        alloc_node-Builds m al q k q' w2 g2.fits (omega (arith, g1.bounded, g2.bounded)) short1 sk
          short2 in
      (
        top s2 + 48,
        s3,
        rw (
          append_assoc (decimal k) (b',' ∷ (tree_text l ++ b',' ∷ tree_text r)) rest,
          append_assoc (tree_text l) (b',' ∷ tree_text r) rest,
          read_node f k (tree_text l ++ b',' ∷ (tree_text r ++ rest)) w sk,
          e1,
          e2,
          e3,
        ),
        omega (arith, cell.grown.fits.inside, cell.grown.fits.pages, cell.room),
        Grown-trans (79 * size l + 79 * size r) 79 (79 * size (node l k r)) w.store s2 s3
            (Grown-trans (79 * size l) (79 * size r) (79 * size l + 79 * size r) w.store s1 s2 g1 g2
              (omega arith))
            cell.grown (omega arith),
        (
          top s2,
          top s1,
          q,
          q',
          refl,
          g1.grows,
          g2.grows,
          omega (arith, cell.room),
          cell.made,
          IsTree-Agree s1.memory s3.memory (top w.store) (top s1) q l
              (λ b i h.
                g2.keeps b (omega arith) h
                ∙ cell.grown.keeps b (omega arith) (omega (arith, g2.grows)))
              t1,
          IsTree-Agree s2.memory s3.memory (top s1) (top s2) q' r
              (λ b i h. cell.grown.keeps b (omega arith) h) t2,
        ),
      )
