-- ===== src/Wasm/Results.antt =====
-- The prints of a call's results by the Wasmtime host.
use Prim.Native.String.{String}
use leanexe.Base.{
  ℕ, zero, suc, ◌+◌, Bool, true, false, ◌||◌, not, List, ◌++◌, ltb, ◌==◌, if◌then◌else◌, Text,
  text_eq, starts_with, drop, codes, ◌%◌, ◌^◌,
}
use leanexe.Base.Decimal.{decimal}
use leanexe.Base.Run.{pure, ◌>>=◌, ◌>>◌}
use leanexe.Wasm.Machine.{Kind, Val, M, print}
use leanexe.Wasm.Outcome.{die}
use leanexe.Wasm.Start.{val_at, is_i64}
use leanexe.Wasm.Memory.{require_memory}
use leanexe.Wasm.Walk.{emit, print_u64_chain, print_u64_tree, print_records}
use leanexe.Wasm.Show.{print_bytes, print_u64_array, save_u64_array}
use leanexe.Wasm.Kinds.{list_result_kind}

-- A result that is printed after the test for an exported memory.
unfoldable pub with_memory : String → M (Unit {0}) → M (Unit {0})
with_memory message show = do require_memory message; show

-- One result of a list, other than `bytes`.
unfoldable pub print_item : Text → ℕ → M (Unit {0})
print_item kind value =
    if text_eq kind (codes "f64") || text_eq kind (codes "i64")
    then print (decimal value ++ codes "\n")
    else if text_eq kind (codes "f32")
    then print (decimal (value % 2 ^ 32) ++ codes "\n")
    else if text_eq kind (codes "array-u64")
    then print_u64_array "Array UInt64 result is outside memory" value
    else if text_eq kind (codes "chain-u64")
    then with_memory "List UInt64 result requires exported memory" (print_u64_chain value)
    else if text_eq kind (codes "tree-u64")
    then with_memory "tree result requires exported memory" (print_u64_tree value)
    else if text_eq kind (codes "records-u64")
    then with_memory "tree result requires exported memory" (print_records value)
    else die "unknown result kind in list"

-- The items of a list, result `i` on; each round prints one item, so `nresults` rounds suffice.
unfoldable pub print_list : ℕ → Text → List Val → ℕ → ℕ → ℕ → M (Unit {0})
print_list zero kind results nresults i item = pure tt
print_list (suc n) kind results nresults i item = elim (ltb i nresults) [
  | false ↦ pure tt
  | true ↦ do
    name ← list_result_kind kind item 32
    elim (text_eq name (codes "bytes")) [
      | true ↦ do
        print_bytes (val_at results i).bits (val_at results (i + 1)).bits
        print_list n kind results nresults (i + 2) (item + 1)
      | false ↦ do
        print_item name (val_at results i).bits
        print_list n kind results nresults (i + 1) (item + 1)
    ]
]

unfoldable pub is_f64 : Kind → Bool
is_f64 Kind.i64 = false
is_f64 Kind.f64 = true
is_f64 Kind.f32 = false
is_f64 Kind.other = false

unfoldable pub is_f32 : Kind → Bool
is_f32 Kind.i64 = false
is_f32 Kind.f64 = false
is_f32 Kind.f32 = true
is_f32 Kind.other = false

unfoldable pub print_float : Bool → String → ℕ → M (Unit {0})
print_float expected message bits =
    if expected then print (decimal bits ++ codes "\n") else die message

unfoldable pub print_words : ℕ → List Val → ℕ → M (Unit {0})
print_words zero results i = pure tt
print_words (suc n) results i = elim (is_i64 (val_at results i).kind) [
  | false ↦ die "expected i64 result"
  | true ↦ do
    emit (not (i == 0)) (codes " ")
    print (decimal (val_at results i).bits)
    print_words n results (i + 1)
]

unfoldable pub print_call_results : Text → List Val → ℕ → M (Unit {0})
print_call_results kind results nresults =
    let first = val_at results 0 in
    if starts_with kind (codes "list:")
    then print_list nresults kind results nresults 0 0
    else if text_eq kind (codes "f64")
    then print_float (is_f64 first.kind) "expected f64 result" first.bits
    else if text_eq kind (codes "f32")
    then print_float (is_f32 first.kind) "expected f32 result" (first.bits % 2 ^ 32)
    else if text_eq kind (codes "bytes")
    then print_bytes first.bits (val_at results 1).bits
    else if text_eq kind (codes "array-u64")
    then print_u64_array "Array UInt64 result length is too large" first.bits
    else if text_eq kind (codes "chain-u64")
        || (text_eq kind (codes "tree-u64") || text_eq kind (codes "records-u64"))
    then print_item kind first.bits
    else if starts_with kind (codes "file-u64:")
    then (do count ← save_u64_array first.bits (drop 9 kind); pure tt)
    else (do print_words nresults results 0; print (codes "\n"))
