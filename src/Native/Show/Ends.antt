-- ===== src/Native/Show/Ends.antt =====
-- The print of a list ends, whatever the memory holds.
pub mod Trees
use Prim.Native.String.{String}
use leanexe.Base.{
  ℕ, zero, suc, ◌+◌, ◌*◌, ◌/◌, ◌≡◌, ◌≤◌, refl, ap, ◌⊎◌, inl, inr, Bool, Bool-cases, true, false,
  not, ◌&&◌, ◌||◌, List, [], ◌∷◌, ◌++◌, ltb, ◌==◌, if◌then◌else◌, Text, codes, arith, add64, sub64,
}
use mathlib.Core.Path.{subst, sym}
use leanexe.Base.Run.{Run, ok, exited, out_of_fuel, Cmd, pure, ◌>>=◌, ◌>>◌}
use leanexe.Base.Run.Halting.{
  Halts, Halting, halting, Halting-at, Halting-bind, Halting-then, Halting-weaken, Halting-if,
  Halting-pure,
}
use leanexe.Base.Decimal.{decimal}
use leanexe.Native.Machine.{World, M, die, fail, print}
use leanexe.Native.Memory.{memory_len, out_of_range, check_range, read_u64_at}
use leanexe.Native.Show.{
  expect_word, check_record, check_object, print_if, print_cell, chain_loop, print_u64_chain,
  print_u64_tree_at, print_u64_tree, object_magic,
}

-- The memory's size.
unfoldable pub Sized : ℕ → World → Type 0
Sized n w = memory_len w ≡ n

module _ (n : ℕ) where
  pub Halting-die :
      {A : Type 0} (P : A → Type 0) (message : String) → Halting (Sized n) P (die message)
  unfolding die fail
  Halting-die P message = halting λ w i. tt

  pub Halting-print : (t : Text) → Halting (Sized n) (λ _. Unit) (print t)
  unfolding print Sized
  Halting-print t = halting λ w i. (i, tt)

  pub Halting-check_range :
      (ptr len : ℕ) (message : String) → Halting (Sized n) (λ _. Unit) (check_range ptr len message)
  unfolding check_range die fail
  Halting-check_range ptr len message = halting λ w i.
      elim (Bool-cases (out_of_range (memory_len w) ptr len)) [
        | inl refused ↦ simp (refused, check_range) tt
        | inr inside ↦ simp (inside, check_range) (i, tt)
      ]

  pub Halting-read_u64_at : (ptr : ℕ) → Halting (Sized n) (λ _. Unit) (read_u64_at ptr)
  unfolding read_u64_at
  Halting-read_u64_at ptr =
      Halting-then _ _ _ (Halting-check_range ptr 8 _) (λ c. halting λ w i. (i, tt))

  pub Halting-expect_word :
      (ptr value : ℕ) (message : String)
      → Halting (Sized n) (λ _. Unit) (expect_word ptr value message)
  unfolding expect_word
  Halting-expect_word ptr value message =
      search (Halting-then, Halting-if, Halting-die, Halting-pure, Halting-read_u64_at)

  ruleset read_rules = (
    Halting-then, Halting-if, Halting-die, Halting-pure, Halting-read_u64_at, Halting-expect_word,
    Halting-print,
  )

  pub Halting-check_object :
      (ptr : ℕ) (message : String) → Halting (Sized n) (λ _. Unit) (check_object ptr message)
  unfolding check_object
  Halting-check_object ptr message = search read_rules depth 10

  pub Halting-check_record :
      (ptr width mask : ℕ) (message : String)
      → Halting (Sized n) (λ _. Unit) (check_record ptr width mask message)
  unfolding check_record
  Halting-check_record ptr width mask message = search (read_rules, Halting-check_object) depth 10

  pub Halting-print_if : (b : Bool) (t : Text) → Halting (Sized n) (λ _. Unit) (print_if b t)
  unfolding print_if
  Halting-print_if b t = search read_rules

  pub Halting-print_cell : (k ptr : ℕ) → Halting (Sized n) (λ _. Unit) (print_cell k ptr)
  unfolding print_cell
  Halting-print_cell k ptr = search (read_rules, Halting-check_record, Halting-print_if) depth 12

  in_bound :
      (w : World) (k : ℕ) → ltb (memory_len w / 16) k ≡ false → Sized n w → k + 1 ≤ n / 16 + 1
  unfolding Sized
  in_bound w k within i =
      let e : memory_len w / 16 ≡ n / 16 = ap (λ m. m / 16) i in ground (arith, within, e)

  pub Halting-chain_loop :
      (f k ptr : ℕ)
      → n / 16 + 2 ≤ f + k
      → k ≤ n / 16 + 1
      → Halting (Sized n) (λ _. Unit) (chain_loop f k ptr)
  unfolding chain_loop Sized
  Halting-chain_loop zero k ptr h b = absurd (omega (arith, h, b))
  Halting-chain_loop (suc f) k ptr h b = halting λ w i. elim (Bool-cases (ptr == 0)) [
    | inl ends ↦ simp (ends, chain_loop) (i, tt)
    | inr more ↦ elim (Bool-cases (ltb (memory_len w / 16) k)) [
      | inl over ↦
          simp (more, over, chain_loop)
            (Halting-at (Sized n) (λ _. Unit) _ (Halting-die (λ _. Unit) "list result does not end")
              w i)
      | inr within ↦
          simp (more, within, chain_loop)
            (Halting-at (Sized n) (λ _. Unit) _
              (Halting-then (λ _. Unit) (print_cell k ptr) (λ next. chain_loop f (k + 1) next)
                (Halting-print_cell k ptr)
                (λ next.
                  Halting-chain_loop f (k + 1) next (omega (arith, h)) (in_bound w k within i)))
              w i)
    ]
  ]

  chain_start :
      (ptr : ℕ) → Halting (Sized n) (λ _. Unit) (λ w. chain_loop (memory_len w / 16 + 2) 0 ptr w)
  unfolding Sized
  chain_start ptr = halting λ w i.
      subst (λ m. Halts (Sized n) (λ _. Unit) (chain_loop (m / 16 + 2) 0 ptr w)) (sym i)
        (Halting-at (Sized n) (λ _. Unit) _
          (Halting-chain_loop (n / 16 + 2) 0 ptr (omega arith) (omega arith)) w i)

  pub Halting-chain : (ptr : ℕ) → Halting (Sized n) (λ _. Unit) (print_u64_chain ptr)
  unfolding print_u64_chain
  Halting-chain ptr =
      Halting-then (λ _. Unit) (print (codes "[")) _ (Halting-print (codes "["))
        λ opened.
          Halting-then (λ _. Unit) (λ w. chain_loop (memory_len w / 16 + 2) 0 ptr w) _
            (chain_start ptr) λ shown. Halting-print (codes "]\n")
