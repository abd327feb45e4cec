-- ===== src/Wasm/Walk/CompleteRecords.antt =====
-- The two walks of `print_records` of tools/wasmtime-host.c.
use leanexe.Base.{
  ℕ, zero, suc, ◌+◌, ◌/◌, ◌≤◌, inl, inr, Bool, true, false, Bool-cases, arith, ltb, ◌==◌, codes,
  ◌++◌, sub64,
}
use leanexe.Base.Decimal.{decimal}
use leanexe.Base.Run.{pure, ◌>>=◌, ◌>>◌}
use leanexe.Native.Alloc.{record_header_valid, mask_bit}
use leanexe.Wasm.Machine.{World, M}
use leanexe.Wasm.Outcome.{die}
use leanexe.Wasm.Memory.{read_u64_at}
use leanexe.Wasm.Walk.{walk_slots, walk_records, print_records, emit, check_object}
use leanexe.Wasm.Walk.Prints.{
  Walks, Any, Walks-pure, Walks-die, Walks-bind, Walks-then, Walks-emit_all, WholeOrNothing,
  walk_both, Walks-choice, Walks-read, Walks-object, Walks-same, and_then-die,
}
use leanexe.Wasm.Walk.Complete.{Between, Walks-weaken, print_end}

-- The slots of a record, when the walk of a subtree behaves.
walk_slots-Walks :
    (bound : ℕ) (tree : Bool → ℕ → ℕ → M ℕ) (n i mask ptr count low : ℕ) (w : World)
    → ((slot c : ℕ) → low ≤ c → c ≤ bound → Walks (Between c bound) (λ out. tree out slot c) w)
    → low ≤ count
    → count ≤ bound
    → Walks (Between count bound) (λ out. walk_slots out (tree out) n i mask ptr count) w
unfolding walk_slots
walk_slots-Walks bound tree zero i mask ptr count low w h below few =
    Walks-pure _ count w (omega arith, few)
walk_slots-Walks bound tree (suc n) i mask ptr count low w h below few =
    let P = Between count bound in
    Walks-then P w (Walks-emit_all (codes ",") w) (
      Walks-bind Any P w (Walks-read _ w) λ slot _.
        Walks-bind P P w (slot_walk slot) λ visited (more_visited, fewer).
          Walks-weaken visited count bound w more_visited
            (walk_slots-Walks bound tree n (i + 1) mask ptr visited low w h (omega arith) fewer))
  where
    slot_walk :
        (slot : ℕ)
        → Walks
            (Between count bound)
            (λ out. elim (mask_bit mask i) [
              | true ↦ tree out slot count
              | false ↦ do emit out (decimal slot); pure count
            ])
            w
    slot_walk slot =
        Walks-choice _ (mask_bit mask i) w (h slot count below few) (
          Walks-then _ w (Walks-emit_all (decimal slot) w)
            (Walks-pure _ count w (omega arith, few)))

-- The width, the mask and the slots of a record that counts as one more.
record_slots :
    (f ptr count width mask : ℕ) (w : World)
    → count + 1 ≤ w.store.size / 56
    → ((slot c : ℕ)
        → count + 1 ≤ c
        → c ≤ w.store.size / 56
        → Walks (Between c (w.store.size / 56)) (λ out. walk_records out f slot c) w)
    → Walks
        (Between count (w.store.size / 56))
        (λ out. elim (record_header_valid width mask) [
          | true ↦ do
            emit out (decimal width ++ codes "," ++ decimal mask)
            walk_slots out (walk_records out f) width 0 mask ptr (count + 1)
          | false ↦ die "tree result has a wrong record header"
        ])
        w
record_slots f ptr count width mask w few h =
    Walks-choice _ (record_header_valid width mask) w
      (Walks-then _ w (Walks-emit_all _ w) (
        Walks-weaken (count + 1) count _ w (omega arith) (
          walk_slots-Walks _ (λ out. walk_records out f) width 0 mask ptr (count + 1) (count + 1) w
            h (omega arith) few)))
      (Walks-die _ _ w)

walk_records-Walks :
    (f ptr count : ℕ) (w : World)
    → count ≤ w.store.size / 56
    → w.store.size / 56 + 1 ≤ f + count
    → Walks (Between count (w.store.size / 56)) (λ out. walk_records out f ptr count) w
unfolding walk_records
walk_records-Walks zero ptr count w low enough = absurd (omega arith)
walk_records-Walks (suc f) ptr count w low enough =
    let P = Between count (w.store.size / 56) in
    elim (Bool-cases (ptr == 0)) [
      | inl end ↦
          Walks-same P w (rw (end, walk_records)) (λ s. rw (end, walk_records))
            (Walks-then P w (Walks-emit_all (codes ".") w)
              (Walks-pure P count w (omega arith, low)))
      | inr more ↦ elim (Bool-cases (ltb (w.store.size / 56) (count + 1))) [
        | inl late ↦
            Walks-same P w (rw (more, late, walk_records)) (λ s. rw (more, late, walk_records))
              (Walks-die P "tree result does not end" w)
        | inr early ↦
            Walks-same P
              {c' = λ out. do
                check_object ptr "tree result has a wrong record header"
                width ← read_u64_at (sub64 ptr 16)
                mask ← read_u64_at (sub64 ptr 8)
                elim (record_header_valid width mask) [
                  | true ↦ do
                    emit out (decimal width ++ codes "," ++ decimal mask)
                    walk_slots out (walk_records out f) width 0 mask ptr (count + 1)
                  | false ↦ die "tree result has a wrong record header"
                ]}
              w (rw (more, early, walk_records)) (λ s. rw (more, early, walk_records))
              (Walks-then P w (Walks-object ptr _ w) (
                Walks-bind Any P w (Walks-read _ w) λ width _.
                  Walks-bind Any P w (Walks-read _ w) λ mask _.
                    record_slots f ptr count width mask w (ground arith)
                      (λ slot c more_visited fewer.
                        walk_records-Walks f slot c w fewer (omega arith))))
      ]
    ]

-- A result made of records is printed whole or not at all: for every memory and every pointer,
-- `print_records` returns, and either adds one text to the control output and changes nothing else,
-- or ends the process with a message as `die` does in the world before the print.
pub print_records-WholeOrNothing : (ptr : ℕ) (w : World) → WholeOrNothing (print_records ptr) w
unfolding print_records
print_records-WholeOrNothing ptr w =
    elim (walk_both (Between 0 (w.store.size / 56))
      (λ out. walk_records out (w.store.size / 56 + 2) ptr 0) w
      (walk_records-Walks (w.store.size / 56 + 2) ptr 0 w (omega arith) (omega arith))) [
        | inr (message, e) ↦ inr (message, rw e (and_then-die message w _))
        | inl (v, t, e, print_it) ↦
            inl (t ++ codes "\n", rw (e, print_it) (print_end t (codes "\n") w))
      ]
