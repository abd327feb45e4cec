-- ===== src/Native/Heap/Arguments.antt =====
-- Whole argument specs: what is placed in memory for an argument is printed as it was written.
use leanexe.Base.{
  ℕ, ◌+◌, ◌*◌, ◌≤◌, ◌≡◌, refl, ◌∙◌, ap, List, [], ◌∷◌, ◌++◌, append-nil, arith, length,
  length-append, Text, codes, text_eq, starts_with, sym,
}
use leanexe.Base.Decimal.{decimal}
use leanexe.Base.Decimal.RoundTrip.{decimal-length}
use leanexe.Base.Run.{ok, pure, ◌>>=◌}
use leanexe.Native.Machine.{Store, Module, World}
use leanexe.Native.Memory.Blocks.{Small}
use leanexe.Native.Parse.{is_empty}
use leanexe.Native.Parse.Numbers.{comma_text, parse_u64_list-comma_text}
use leanexe.Native.Parse.Tokens.{nothing}
use leanexe.Native.Alloc.{alloc_u64_tree, alloc_u64_chain}
use leanexe.Native.Call.{parse_arg, whole_tree, print_result}
use leanexe.Native.Heap.{top, Fits, Allocator}
use leanexe.Native.Heap.Checks.{said}
use leanexe.Native.Heap.Chain.{alloc_u64_chain-Chains}
use leanexe.Native.Heap.ChainPrint.{list_line, print_u64_chain-ok}
use leanexe.Native.Heap.Tree.{
  Tree, leaf, node, tree_text, size, height, SmallKeys, alloc_u64_tree-Grows,
}
use leanexe.Native.Heap.TreePrint.{print_u64_tree-ok}

height-le-length : (t : Tree) → height t ≤ length (tree_text t)
unfolding tree_text
height-le-length leaf = omega arith
height-le-length (node l k r) = omega (
  arith,
  height-le-length l,
  height-le-length r,
  decimal-length k,
  length-append (decimal k) (b',' ∷ (tree_text l ++ b',' ∷ tree_text r)),
  length-append (tree_text l) (b',' ∷ tree_text r),
)

parse_tree_arg :
    (m : Module) (t : Text) (w : World)
    → parse_arg m (codes "tree-u64:" ++ t) w
      ≡ (alloc_u64_tree m (length (codes "tree-u64:" ++ t) + 1) t >>= whole_tree) w
unfolding parse_arg starts_with
parse_tree_arg m t w = refl

parse_chain_arg :
    (m : Module) (xs : List ℕ) (w : World)
    → Small xs
    → parse_arg m (codes "chain-u64:" ++ comma_text xs) w
      ≡ (do ptr ← alloc_u64_chain m xs; pure (ptr ∷ [])) w
unfolding parse_arg starts_with
parse_chain_arg m xs w small = rw (parse_u64_list-comma_text xs w small)

module _ (m : Module) (al : Allocator m) where
  -- A list argument is printed as it was written: for every list of 64-bit words, placing the
  -- argument `chain-u64:x,y,...` gives one word, the address, and printing a result of kind
  -- `chain-u64` with that address adds the line `[x, y, ...]` to standard output. The module's
  -- `alloc` must meet the contract `Allocator`, no block may be on the free list, and there must be
  -- 71 bytes of room for each element; nothing of the world but the output and the module's store
  -- changes.
  pub print_result-chain_arg :
      (xs : List ℕ) (w : World)
      → Small xs
      → Fits w.store
      → top w.store + 71 * length xs ≤ al.limit
      → (s : Store) × (p : ℕ) × (parse_arg m (codes "chain-u64:" ++ comma_text xs) w
          ≡ ok (p ∷ []) (record w { store = s }))
        × (print_result (codes "chain-u64") p (record w { store = s })
            ≡ ok tt (said (list_line xs) (record w { store = s })))
  unfolding print_result text_eq
  print_result-chain_arg xs w small fits room =
      let (p, s, built, short, grown, chain) = alloc_u64_chain-Chains m al xs w small fits room in
      (
        s,
        p,
        parse_chain_arg m xs w small ∙ rw built,
        print_u64_chain-ok (top w.store) (top s) p xs (record w { store = s }) chain grown.grows
            grown.fits.inside (omega (arith, grown.fits.pages)),
      )

  -- A tree argument is printed as it was written: for every binary tree of 64-bit keys, placing the
  -- argument `tree-u64:` with the tree's preorder description gives one word, the address, and
  -- printing a result of kind `tree-u64` with that address adds the same description and the end of
  -- the line to standard output. The module's `alloc` must meet the contract `Allocator`, no block
  -- may be on the free list, and there must be 79 bytes of room for each node; the recursion's fuel
  -- suffices; nothing of the world but the output and the module's store changes.
  pub print_result-tree_arg :
      (t : Tree) (w : World)
      → SmallKeys t
      → Fits w.store
      → top w.store + 79 * size t ≤ al.limit
      → (s : Store) × (p : ℕ) × (parse_arg m (codes "tree-u64:" ++ tree_text t) w
          ≡ ok (p ∷ []) (record w { store = s }))
        × (print_result (codes "tree-u64") p (record w { store = s })
            ≡ ok tt (said (tree_text t ++ codes "\n") (record w { store = s })))
  unfolding print_result text_eq whole_tree is_empty
  print_result-tree_arg t w small fits room =
      let spec = codes "tree-u64:" ++ tree_text t in
      let (p, s, built, short, grown, tree) =
        alloc_u64_tree-Grows m al t (length spec + 1) w nothing (omega (arith, height-le-length t))
          small fits room in
      let whole : alloc_u64_tree m (length spec + 1) (tree_text t) w
          ≡ ok (p, []) (record w { store = s }) =
        ap (λ text. alloc_u64_tree m (length spec + 1) text w) (sym (append-nil (tree_text t)))
        ∙ built in
      (
        s,
        p,
        parse_tree_arg m (tree_text t) w ∙ rw whole,
        print_u64_tree-ok t (top w.store) (top s) p (record w { store = s }) tree grown.grows
            grown.fits.inside (omega (arith, grown.fits.pages)),
      )
