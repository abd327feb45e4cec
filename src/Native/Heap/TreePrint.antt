-- ===== src/Native/Heap/TreePrint.antt =====
-- `print_u64_tree` on a tree that the host built.
use leanexe.Base.{
  ℕ, zero, suc, ◌+◌, ◌*◌, ◌/◌, ◌^◌, ◌≤◌, ◌<◌, ◌≡◌, ap, true, false, [], ◌∷◌, ◌++◌, append_assoc,
  arith, Text, codes, add64, ltb, ◌==◌,
}
use leanexe.Base.Decimal.{decimal}
use leanexe.Base.Run.{ok}
use leanexe.Native.Machine.{World, print}
use leanexe.Native.Memory.{memory_len, read_u64_at}
use leanexe.Native.Memory.Access.{read-ok}
use leanexe.Native.Show.{print_u64_tree_at, print_u64_tree}
use leanexe.Native.Heap.{IsRecord}
use leanexe.Native.Heap.Checks.{said, said-said, check_record-ok}
use leanexe.Native.Heap.Tree.{Tree, leaf, node, tree_text, size, height, IsTree}

IsTree-size :
    (m : ℕ → ℕ) (lo hi p : ℕ) (t : Tree) → IsTree m lo hi p t → lo ≤ hi → 72 * size t + lo ≤ hi
IsTree-size m lo hi p leaf c h = omega arith
IsTree-size m lo hi p (node l k r) (a, mid, q, q', e, low, mids, high, rec, left, right) h =
    omega (arith, IsTree-size m lo mid q l left low, IsTree-size m mid a q' r right mids)

height-le : (t : Tree) → height t ≤ size t + 1
height-le leaf = omega arith
height-le (node l k r) = omega (arith, height-le l, height-le r)

-- The three slots of a node's record, as the walk reads them.
module _ (a q k q' : ℕ) (w : World) (inside : a + 72 ≤ memory_len w) (short : memory_len w < 2 ^ 64)
    (rec : IsRecord w.store.memory a 3 5 (q ∷ k ∷ q' ∷ [])) where
  read_left : read_u64_at (a + 48) w ≡ ok q w
  read_left =
      let e : a + 24 + 8 + 8 + 8 ≡ a + 48 = omega arith in
      rw (read-ok (a + 48) w (omega arith), ← e, rec.body.1.1.1.0)

  read_key : read_u64_at (add64 (a + 48) 8) w ≡ ok k w
  read_key =
      let e : add64 (a + 48) 8 ≡ a + 24 + 8 + 8 + 8 + 8 = omega arith in
      rw (e, read-ok (a + 24 + 8 + 8 + 8 + 8) w (omega arith), rec.body.1.1.1.1.0)

  read_right : read_u64_at (add64 (a + 48) 16) w ≡ ok q' w
  read_right =
      let e : add64 (a + 48) 16 ≡ a + 24 + 8 + 8 + 8 + 8 + 8 = omega arith in
      rw (e, read-ok (a + 24 + 8 + 8 + 8 + 8 + 8) w (omega arith), rec.body.1.1.1.1.1.0)

abbrev comma_text : Text
comma_text = codes ","

node_text :
    (l r : Text) (k : ℕ) (w : World)
    → said r (said comma_text (said l (said (decimal k ++ comma_text) w)))
      ≡ said (decimal k ++ (b',' ∷ (l ++ b',' ∷ r))) w
node_text l r k w = ap (λ o. record w { out = o }) (simp (append_assoc))

print_u64_tree_at-ok :
    (t : Tree) (f count lo hi p : ℕ) (w : World)
    → IsTree w.store.memory lo hi p t
    → lo ≤ hi
    → hi ≤ memory_len w
    → memory_len w < 2 ^ 64
    → count + size t ≤ memory_len w / 72
    → height t ≤ f
    → print_u64_tree_at f p count w ≡ ok (count + size t) (said (tree_text t) w)
unfolding print_u64_tree_at tree_text print
print_u64_tree_at-ok leaf zero count lo hi p w c h inside short few fuel = absurd (omega arith)
print_u64_tree_at-ok leaf (suc f) count lo hi p w c h inside short few fuel =
    let done : (p == 0) ≡ true = ground arith in
    let same : count ≡ count + 0 = omega arith in
    rw (done, print_u64_tree_at) (ap (λ n. ok n (said (codes ".") w)) same)
print_u64_tree_at-ok (node l k r) zero count lo hi p w c h inside short few fuel =
    absurd (omega arith)
print_u64_tree_at-ok (node l k r) (suc f) count lo hi p w
      (a, mid, q, q', e, low, mids, high, rec, left, right) h inside short few fuel =
    let more : (p == 0) ≡ false = ground arith in
    let fits : ltb (memory_len w / 72) (count + 1) ≡ false = ground arith in
    let w1 = said (decimal k ++ comma_text) w in
    let w2 = said comma_text (said (tree_text l) w1) in
    let total : count + 1 + size l + size r ≡ count + (size l + size r + 1) = omega arith in
    rw
      (
        more,
        print_u64_tree_at,
        fits,
        e,
        check_record-ok a 3 5 (q ∷ k ∷ q' ∷ []) "tree result has a wrong record header" w
            (omega arith) short rec,
        read_key a q k q' w (omega arith) short rec,
        read_left a q k q' w1 (omega arith) short rec,
        print_u64_tree_at-ok l f (count + 1) lo mid q w1 left low (omega arith) short (omega arith)
            (omega arith),
        read_right a q k q' w2 (omega arith) short rec,
        print_u64_tree_at-ok r f (count + 1 + size l) mid a q' w2 right mids (omega arith) short
            (omega arith) (omega arith),
        total,
      )
      (ap (ok (count + (size l + size r + 1))) (node_text (tree_text l) (tree_text r) k w))

-- A tree in memory is printed as its description and the end of the line.
pub print_u64_tree-ok :
    (t : Tree) (lo hi p : ℕ) (w : World)
    → IsTree w.store.memory lo hi p t
    → lo ≤ hi
    → hi ≤ memory_len w
    → memory_len w < 2 ^ 64
    → print_u64_tree p w ≡ ok tt (said (tree_text t ++ codes "\n") w)
unfolding print_u64_tree print
print_u64_tree-ok t lo hi p w c h inside short =
    let few = IsTree-size w.store.memory lo hi p t c h in
    let small : height t ≤ size t + 1 = height-le t in
    rw
      (print_u64_tree_at-ok t (memory_len w / 72 + 2) 0 lo hi p w c h inside short (omega arith)
        (omega arith))
      (ap (ok tt) (said-said (tree_text t) (codes "\n") w))
