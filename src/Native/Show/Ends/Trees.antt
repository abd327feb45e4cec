-- ===== src/Native/Show/Ends/Trees.antt =====
-- The print of a tree ends, whatever the memory holds.
use leanexe.Base.{
  ℕ, zero, suc, ◌+◌, ◌/◌, ◌≡◌, ◌≤◌, refl, ap, inl, inr, Bool-cases, false, ◌++◌, ltb, ◌==◌, codes,
  arith, add64,
}
use mathlib.Core.Path.{subst, sym}
use leanexe.Base.Run.{◌>>=◌, ◌>>◌}
use leanexe.Base.Run.Halting.{
  Halts, Halting, halting, Halting-at, Halting-bind, Halting-then, Halting-weaken,
}
use leanexe.Base.Decimal.{decimal}
use leanexe.Native.Machine.{World, M, print}
use leanexe.Native.Memory.{memory_len, read_u64_at}
use leanexe.Native.Show.{check_record, print_u64_chain, print_u64_tree_at, print_u64_tree}
use leanexe.Native.Show.Ends.{
  Sized, Halting-die, Halting-print, Halting-read_u64_at, Halting-check_record, Halting-chain,
}

-- One record of a tree, and what is below it.
tree_record : ℕ → ℕ → ℕ → M ℕ
tree_record f ptr count = do
  check_record ptr 3 5 "tree result has a wrong record header"
  key ← read_u64_at (add64 ptr 8)
  print (decimal key ++ codes ",")
  left ← read_u64_at ptr
  count ← print_u64_tree_at f left (count + 1)
  print (codes ",")
  right ← read_u64_at (add64 ptr 16)
  print_u64_tree_at f right count

-- A count of records that the memory has room for, one more than it at most, and that is `count` or
-- more.
Within : ℕ → ℕ → ℕ → Type 0
Within n count c = (count ≤ c) × (c ≤ n / 72 + 1)

module _ (n : ℕ) where
  Within-one_more :
      (count c f : ℕ) → n / 72 + 2 ≤ suc f + count → Within n (count + 1) c → n / 72 + 2 ≤ f + c
  unfolding Within
  Within-one_more count c f h (a, b) = omega (arith, h, a)

  Within-trans : (count c e : ℕ) → Within n (count + 1) c → Within n c e → Within n count e
  unfolding Within
  Within-trans count c e (a, b) (x, y) = (omega (arith, a, x), y)

  Within-self : (count c : ℕ) → Within n count c → Within n c c
  unfolding Within
  Within-self count c (a, b) = (omega arith, b)

  counted :
      (w : World) (count : ℕ)
      → ltb (memory_len w / 72) (count + 1) ≡ false
      → Sized n w
      → Within n (count + 1) (count + 1)
  unfolding Sized Within
  counted w count within i =
      let e : memory_len w / 72 ≡ n / 72 = ap (λ m. m / 72) i in
      (omega arith, ground (arith, within, e))

  Halting-tree_record :
      (f ptr count : ℕ)
      → ((p c : ℕ)
          → n / 72 + 2 ≤ f + c
          → Within n c c
          → Halting (Sized n) (Within n c) (print_u64_tree_at f p c))
      → n / 72 + 2 ≤ suc f + count
      → Within n (count + 1) (count + 1)
      → Halting (Sized n) (Within n count) (tree_record f ptr count)
  unfolding tree_record
  Halting-tree_record f ptr count subtree h b =
      Halting-then (Within n count) (check_record ptr 3 5 "tree result has a wrong record header") _
        (Halting-check_record n ptr 3 5 "tree result has a wrong record header")
        λ checked.
          Halting-then _ (read_u64_at (add64 ptr 8)) _ (Halting-read_u64_at n (add64 ptr 8)) λ key.
            Halting-then _ (print (decimal key ++ codes ",")) _
              (Halting-print n (decimal key ++ codes ","))
              λ printed. Halting-then _ (read_u64_at ptr) _ (Halting-read_u64_at n ptr) λ left.
                Halting-bind (Within n (count + 1)) _ (print_u64_tree_at f left (count + 1)) _
                  (subtree left (count + 1) (Within-one_more count (count + 1) f h b) b)
                  λ c in_room.
                    Halting-then _ (print (codes ",")) _ (Halting-print n (codes ",")) λ separated.
                      Halting-then _ (read_u64_at (add64 ptr 16)) _
                        (Halting-read_u64_at n (add64 ptr 16))
                        λ right.
                          Halting-weaken (Within n c) (Within n count) (print_u64_tree_at f right c)
                            (λ e. Within-trans count c e in_room)
                            (subtree right c (Within-one_more count c f h in_room)
                              (Within-self (count + 1) c in_room))

  no_room : (count : ℕ) → n / 72 + 2 ≤ 0 + count → Within n count count → ⊥
  unfolding Within
  no_room count h (a, b) = omega (arith, h, b)

  Halting-tree_at :
      (f ptr count : ℕ)
      → n / 72 + 2 ≤ f + count
      → Within n count count
      → Halting (Sized n) (Within n count) (print_u64_tree_at f ptr count)
  unfolding print_u64_tree_at print tree_record Sized
  Halting-tree_at zero ptr count h b = absurd (no_room count h b)
  Halting-tree_at (suc f) ptr count h b = halting λ w i. elim (Bool-cases (ptr == 0)) [
    | inl ends ↦ simp (ends, print_u64_tree_at) (i, b)
    | inr more ↦ elim (Bool-cases (ltb (memory_len w / 72) (count + 1))) [
      | inl over ↦
          simp (more, over, print_u64_tree_at)
            (Halting-at (Sized n) (Within n count) _ (Halting-die n _ "tree result does not end") w
              i)
      | inr within ↦
          simp (more, within, print_u64_tree_at)
            (Halting-at (Sized n) (Within n count) (tree_record f ptr count)
              (Halting-tree_record f ptr count (Halting-tree_at f) h (counted w count within i)) w
              i)
    ]
  ]

  tree_start :
      (ptr : ℕ)
      → Halting (Sized n) (Within n 0) (λ w. print_u64_tree_at (memory_len w / 72 + 2) ptr 0 w)
  unfolding Sized Within
  tree_start ptr = halting λ w i.
      subst (λ m. Halts (Sized n) (Within n 0) (print_u64_tree_at (m / 72 + 2) ptr 0 w)) (sym i)
        (Halting-at (Sized n) (Within n 0) _
          (Halting-tree_at (n / 72 + 2) ptr 0 (omega arith) (omega arith, omega arith)) w i)

  Halting-tree : (ptr : ℕ) → Halting (Sized n) (λ _. Unit) (print_u64_tree ptr)
  unfolding print_u64_tree
  Halting-tree ptr =
      Halting-bind (Within n 0) (λ _. Unit) (λ w. print_u64_tree_at (memory_len w / 72 + 2) ptr 0 w)
        _ (tree_start ptr) λ count in_room. Halting-print n (codes "\n")

-- Whatever the memory holds and wherever the pointer leads, also into a cycle, the prints of a list
-- and of a tree do not run out of the rounds that the memory's size gives them: each returns, with
-- the memory as large as before, or ends the process.
pub print-Halts :
    (ptr : ℕ) (w : World)
    → Halts (λ w'. memory_len w' ≡ memory_len w) (λ _. Unit) (print_u64_chain ptr w)
      × Halts (λ w'. memory_len w' ≡ memory_len w) (λ _. Unit) (print_u64_tree ptr w)
unfolding Sized
print-Halts ptr w = (
  Halting-at (Sized (memory_len w)) (λ _. Unit) _ (Halting-chain (memory_len w) ptr) w refl,
  Halting-at (Sized (memory_len w)) (λ _. Unit) _ (Halting-tree (memory_len w) ptr) w refl,
)
