-- ===== src/Wasm/Kinds.antt =====
-- The result kinds of the Wasmtime host.
use leanexe.Base.{
  ℕ, zero, suc, ◌+◌, Bool, true, false, ◌&&◌, ◌||◌, none, some, List, [], ◌∷◌, ltb, if◌then◌else◌,
  Text, text_eq, starts_with, length, get_elem?, drop, codes,
}
use leanexe.Base.Run.{pure, ◌>>=◌}
use leanexe.Native.Parse.{comma_items}
use leanexe.Native.Call.{item_width}
use leanexe.Wasm.Machine.{Kind, M}
use leanexe.Wasm.Outcome.{die}
use leanexe.Wasm.Parse.{parse_u64}

-- The kind of result `index` of a kind `list:K1,K2,...`; `room` is the size of the buffer that the
-- name and its zero byte are copied to.
unfoldable pub list_result_kind : Text → ℕ → ℕ → M Text
list_result_kind kind index room = elim (get_elem? (comma_items (drop 5 kind)) index) [
  | none ↦ die "result list is too short"
  | some item ↦ if ltb room (length item + 1) then die "result kind is too long" else pure item
]

unfoldable pub count_items : Text → ℕ → ℕ → ℕ → M ℕ
count_items kind zero i count = pure count
count_items kind (suc n) i count = do
  item ← list_result_kind kind i 32
  count_items kind n (i + 1) (count + item_width item)

unfoldable pub list_count : Text → M ℕ
list_count kind =
    let items = length (comma_items (drop 5 kind)) in
    if ltb 128 items then die "too many results" else (do
      count ← count_items kind items 0 0
      if ltb 128 count then die "too many results" else pure count)

unfoldable pub slots_count : Text → M ℕ
slots_count text = do
  count ← parse_u64 text
  if ltb 128 count then die "too many result slots" else pure count

unfoldable pub result_count_from_kind : Text → M ℕ
result_count_from_kind kind =
    if text_eq kind (codes "i64") || text_eq kind (codes "f64") || text_eq kind (codes "f32")
    then pure 1
    else if starts_with kind (codes "list:")
    then list_count kind
    else if text_eq kind (codes "bytes")
    then pure 2
    else if text_eq kind (codes "array-u64")
        || text_eq kind (codes "chain-u64")
        || text_eq kind (codes "tree-u64")
        || text_eq kind (codes "records-u64")
        || starts_with kind (codes "file-u64:")
    then pure 1
    else if starts_with kind (codes "slots:")
    then slots_count (drop 6 kind)
    else die "unknown result kind"

unfoldable pub kind_of : Text → Kind
kind_of kind =
    if text_eq kind (codes "f64")
    then Kind.f64
    else if text_eq kind (codes "f32")
    then Kind.f32
    else Kind.i64

-- The kinds of the results from `i` on, `item` the next item of a list. Each round fills a slot, so
-- `nresults` rounds suffice.
unfoldable pub slot_kinds : ℕ → Text → Bool → ℕ → ℕ → ℕ → M (List Kind)
slot_kinds zero result_kind is_list nresults i item = pure []
slot_kinds (suc n) result_kind is_list nresults i item = elim (ltb i nresults) [
  | false ↦ pure []
  | true ↦ do
    kind ← (if is_list then list_result_kind result_kind item 32 else pure result_kind)
    kinds ←
        slot_kinds n result_kind is_list nresults (i + (if is_list then item_width kind else 1))
          (item + 1)
    pure (elim (is_list && text_eq kind (codes "bytes")) [
      | true ↦ Kind.i64 ∷ Kind.i64 ∷ kinds
      | false ↦ kind_of kind ∷ kinds
    ])
]

-- The number of results; their kinds, which the call overwrites, are dropped.
unfoldable pub result_slots : Text → M ℕ
result_slots result_kind = do
  nresults ← result_count_from_kind result_kind
  kinds ← slot_kinds nresults result_kind (starts_with result_kind (codes "list:")) nresults 0 0
  pure nresults
