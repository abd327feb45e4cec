-- ===== src/Wasm/Walk/Complete.antt =====
-- The two walks of `print_u64_chain` and `print_u64_tree` of tools/wasmtime-host.c.
use leanexe.Base.{
  ℕ, zero, suc, ◌+◌, ◌/◌, ◌≤◌, ◌≡◌, refl, ap, inl, inr, Bool, Bool-cases, not, arith, ltb, ◌==◌,
  Text, codes, ◌++◌, add64,
}
use leanexe.Base.Decimal.{decimal}
use leanexe.Base.Run.{ok, ◌>>=◌, ◌>>◌}
use leanexe.Wasm.Machine.{World, M, print, said}
use leanexe.Wasm.Memory.{read_u64_at}
use leanexe.Wasm.Walk.{
  walk_cell, chain_loop, walk_u64_chain, print_u64_chain, walk_u64_tree, print_u64_tree, emit,
  check_record,
}
use leanexe.Wasm.Walk.Prints.{
  Walks, shows, refuses, Any, Walks-pure, Walks-die, Walks-bind, Walks-then, Walks-emit,
  Walks-emit_all, WholeOrNothing, walk_both, Walks-read, Walks-record, Walks-same, and_then-die,
  said-said,
}

walk_cell-Walks : (k ptr : ℕ) (w : World) → Walks Any (λ out. walk_cell out k ptr) w
unfolding walk_cell
walk_cell-Walks k ptr w = Walks-then Any w (Walks-record ptr 2 2 _ w) (
    Walks-then Any w (Walks-emit (not (k == 0)) (codes ", ") w) (
      Walks-bind Any Any w (Walks-read ptr w)
        λ word p. Walks-then Any w (Walks-emit_all (decimal word) w) (Walks-read _ w)))

chain_loop-Walks :
    (f k ptr : ℕ) (w : World)
    → k ≤ w.store.size / 16 + 1
    → w.store.size / 16 + 2 ≤ f + k
    → Walks Any (λ out. chain_loop out f k ptr) w
unfolding chain_loop
chain_loop-Walks zero k ptr w low enough = absurd (omega arith)
chain_loop-Walks (suc f) k ptr w low enough = elim (Bool-cases (ptr == 0)) [
  | inl end ↦
      Walks-same Any w (rw (end, chain_loop)) (λ s. rw (end, chain_loop)) (Walks-pure Any tt w tt)
  | inr more ↦ elim (Bool-cases (ltb (w.store.size / 16) k)) [
    | inl late ↦
        Walks-same Any w (rw (more, late, chain_loop)) (λ s. rw (more, late, chain_loop))
          (Walks-die Any "list result does not end" w)
    | inr early ↦
        Walks-same Any w (rw (more, early, chain_loop)) (λ s. rw (more, early, chain_loop))
          (Walks-bind Any Any w (walk_cell-Walks k ptr w)
            λ next p. chain_loop-Walks f (k + 1) next w (ground arith) (omega arith))
  ]
]

walk_u64_chain-Walks : (ptr : ℕ) (w : World) → Walks Any (λ out. walk_u64_chain out ptr) w
unfolding walk_u64_chain
walk_u64_chain-Walks ptr w = Walks-then Any w (Walks-emit_all (codes "[") w) (
    Walks-then Any w
      (Walks-same Any w refl (λ s. refl) (chain_loop-Walks _ 0 ptr w (omega arith) (omega arith)))
      (Walks-emit_all (codes "]\n") w))

-- A list result is printed whole or not at all: for every memory and every pointer,
-- `print_u64_chain` returns, and either adds one text to the control output and changes nothing
-- else, or ends the process with a message as `die` does in the world before the print.
pub print_u64_chain-WholeOrNothing : (ptr : ℕ) (w : World) → WholeOrNothing (print_u64_chain ptr) w
unfolding print_u64_chain
print_u64_chain-WholeOrNothing ptr w =
    elim (walk_both Any (λ out. walk_u64_chain out ptr) w (walk_u64_chain-Walks ptr w)) [
      | inr (message, e) ↦ inr (message, rw e (and_then-die message w _))
      | inl (v, t, e, print_it) ↦ inl (t, rw e print_it)
    ]

-- A count of records between what it was and the bound on the visits.
abbrev pub Between : ℕ → ℕ → ℕ → Type 0
Between low high count = (low ≤ count) × (count ≤ high)

pub Walks-weaken :
    (low lower high : ℕ) {c : Bool → M ℕ} (w : World)
    → lower ≤ low
    → Walks (Between low high) c w
    → Walks (Between lower high) c w
Walks-weaken low lower high w h (refuses message e) = refuses message e
Walks-weaken low lower high w h (shows v t (more, few) e print_it) =
    shows v t (omega arith, few) e print_it

-- The comma and the right subtree.
right_subtree :
    (f ptr count visited : ℕ) (w : World)
    → count ≤ visited
    → ((right : ℕ)
        → Walks (Between visited (w.store.size / 72)) (λ out. walk_u64_tree out f right visited) w)
    → Walks
        (Between count (w.store.size / 72))
        (λ out. do
          emit out (codes ",")
          right ← read_u64_at (add64 ptr 16)
          walk_u64_tree out f right visited)
        w
right_subtree f ptr count visited w more_visited h = Walks-then _ w (Walks-emit_all (codes ",") w) (
    Walks-bind Any _ w (Walks-read (add64 ptr 16) w)
      λ right _. Walks-weaken visited count _ w more_visited (h right))

walk_u64_tree-Walks :
    (f ptr count : ℕ) (w : World)
    → count ≤ w.store.size / 72
    → w.store.size / 72 + 1 ≤ f + count
    → Walks (Between count (w.store.size / 72)) (λ out. walk_u64_tree out f ptr count) w
unfolding walk_u64_tree
walk_u64_tree-Walks zero ptr count w low enough = absurd (omega arith)
walk_u64_tree-Walks (suc f) ptr count w low enough =
    let P = Between count (w.store.size / 72) in
    elim (Bool-cases (ptr == 0)) [
      | inl end ↦
          Walks-same P w (rw (end, walk_u64_tree)) (λ s. rw (end, walk_u64_tree))
            (Walks-then P w (Walks-emit_all (codes ".") w)
              (Walks-pure P count w (omega arith, low)))
      | inr more ↦ elim (Bool-cases (ltb (w.store.size / 72) (count + 1))) [
        | inl late ↦
            Walks-same P w (rw (more, late, walk_u64_tree)) (λ s. rw (more, late, walk_u64_tree))
              (Walks-die P "tree result does not end" w)
        | inr early ↦
            Walks-same P
              {c' = λ out. do
                check_record ptr 3 5 "tree result has a wrong record header"
                key ← read_u64_at (add64 ptr 8)
                emit out (decimal key ++ codes ",")
                left ← read_u64_at ptr
                visited ← walk_u64_tree out f left (count + 1)
                emit out (codes ",")
                right ← read_u64_at (add64 ptr 16)
                walk_u64_tree out f right visited}
              w (rw (more, early, walk_u64_tree)) (λ s. rw (more, early, walk_u64_tree))
              (Walks-then P w (Walks-record ptr 3 5 _ w) (
                Walks-bind Any P w (Walks-read (add64 ptr 8) w) λ key _.
                  Walks-then P w (Walks-emit_all _ w) (
                    Walks-bind Any P w (Walks-read ptr w) λ left _.
                      Walks-bind (Between (count + 1) (w.store.size / 72)) P w
                        (walk_u64_tree-Walks f left (count + 1) w (ground arith) (omega arith))
                        (λ visited (more_visited, few).
                          right_subtree f ptr count visited w (omega arith)
                            (λ right. walk_u64_tree-Walks f right visited w few (omega arith))))))
      ]
    ]

pub print_end : (t s : Text) (w : World) → print s (said t w) ≡ ok tt (said (t ++ s) w)
unfolding print
print_end t s w = ap (ok tt) (said-said t s w)

-- A tree result is printed whole or not at all: for every memory and every pointer,
-- `print_u64_tree` returns, and either adds one text to the control output and changes nothing else,
-- or ends the process with a message as `die` does in the world before the print.
pub print_u64_tree-WholeOrNothing : (ptr : ℕ) (w : World) → WholeOrNothing (print_u64_tree ptr) w
unfolding print_u64_tree
print_u64_tree-WholeOrNothing ptr w =
    elim (walk_both (Between 0 (w.store.size / 72))
      (λ out. walk_u64_tree out (w.store.size / 72 + 2) ptr 0) w
      (walk_u64_tree-Walks (w.store.size / 72 + 2) ptr 0 w (omega arith) (omega arith))) [
        | inr (message, e) ↦ inr (message, rw e (and_then-die message w _))
        | inl (v, t, e, print_it) ↦
            inl (t ++ codes "\n", rw (e, print_it) (print_end t (codes "\n") w))
      ]
