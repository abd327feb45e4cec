-- ===== src/Native/Call/Bounds.antt =====
-- The sizes of the buffers `args[256]` and `results[128]` of `call_export` in tools/native-host.c.
use Prim.Native.String.{String}
use leanexe.Base.{
  ℕ, ◌+◌, ◌≤◌, ◌≡◌, refl, Bool-cases, inl, inr, List, [], ◌∷◌, ◌++◌, length, ltb, ◌==◌, arith, Text,
  length-append, if◌then◌else◌, starts_with, text_eq, codes, ◌||◌, drop,
}
use leanexe.Base.Run.{ok, pure}
use leanexe.Base.Run.Results.{
  Gives, Gives-bind, Gives-bind_from, Gives-if, Gives-pure, Gives-exited, Gives-ok,
}
use leanexe.Native.Machine.{Module, World, Report, die, fail}
use leanexe.Native.Parse.{host_parse_u64, comma_items, parse_u64_list}
use leanexe.Native.Alloc.{alloc_u64_array, alloc_u64_chain, alloc_u64_tree, alloc_records}
use leanexe.Native.Call.{
  whole_tree, bytes_arg, f32_arg, parse_arg, place_loop, count_items, list_count, slots_count,
  result_count_from_kind,
}

Gives-fail :
    {A : Type 0} (P : A → Type 0) (code : ℕ) (r : Report) → Gives {S = World} P (fail code r)
unfolding fail
Gives-fail P code r = Gives-exited P (fail code r) λ s. (code, _, refl)

pub Gives-die : {A : Type 0} (P : A → Type 0) (message : String) → Gives {S = World} P (die message)
unfolding die
Gives-die P message = Gives-fail P 1 (Report.line message)

abbrev AtMost : ℕ → List ℕ → Type 0
AtMost n args = length args ≤ n

one : (v : ℕ) → Gives {S = World} (AtMost 2) (pure (v ∷ []))
one v = Gives-pure (AtMost 2) (v ∷ []) (omega arith)

whole_tree-AtMost : (r : ℕ × Text) → Gives (AtMost 2) (whole_tree r)
unfolding whole_tree
whole_tree-AtMost (ptr, rest) = Gives-if (AtMost 2) _ _ _ (one ptr) (Gives-die _ _)

f32_arg-AtMost : (bits : ℕ) → Gives (AtMost 2) (f32_arg bits)
unfolding f32_arg
f32_arg-AtMost bits = Gives-if (AtMost 2) _ _ _ (Gives-die _ _) (one bits)

bytes_arg-AtMost : (m : Module) (bytes : Text) → Gives (AtMost 2) (bytes_arg m bytes)
unfolding bytes_arg
bytes_arg-AtMost m bytes =
    Gives-bind (AtMost 2) _ _ λ ptr. Gives-pure (AtMost 2) (ptr ∷ length bytes ∷ []) (omega arith)

-- An argument is one word or two, and none when its spec is unknown.
parse_arg-AtMost : (m : Module) (spec : Text) → Gives (AtMost 2) (parse_arg m spec)
unfolding parse_arg
parse_arg-AtMost m spec =
    let P = AtMost 2 in
    Gives-if P (starts_with spec (codes "i64:") || starts_with spec (codes "f64:")) _ _
      (Gives-bind P _ _ one)
      (Gives-if P (starts_with spec (codes "f32:")) _ _ (Gives-bind P _ _ f32_arg-AtMost) (
        Gives-if P (starts_with spec (codes "bytes:")) _ _ (Gives-bind P _ _ (bytes_arg-AtMost m)) (
          Gives-if P (starts_with spec (codes "bytes-file:")) _ _
            (Gives-bind P _ _ (bytes_arg-AtMost m))
            (Gives-if P (starts_with spec (codes "file-u64:")) _ _ (Gives-bind P _ _ one) (
              Gives-if P (starts_with spec (codes "array-u64:")) _ _
                (Gives-bind P (parse_u64_list (drop 10 spec)) _
                  λ v. Gives-bind P (alloc_u64_array m v) _ one)
                (Gives-if P (starts_with spec (codes "tree-u64:")) _ _
                  (Gives-bind P (alloc_u64_tree m (length spec + 1) (drop 9 spec)) _
                    whole_tree-AtMost)
                  (Gives-if P (starts_with spec (codes "records-u64:")) _ _
                    (Gives-bind P (alloc_records m (length spec + 1) (drop 12 spec)) _
                      whole_tree-AtMost)
                    (Gives-if P (starts_with spec (codes "chain-u64:")) _ _
                      (Gives-bind P (parse_u64_list (drop 10 spec)) _
                        λ v. Gives-bind P (alloc_u64_chain m v) _ one)
                      (Gives-pure P [] (omega arith))))))))))

place_loop-AtMost :
    (m : Module) (specs : List Text) (args : List ℕ)
    → length args ≤ 256
    → Gives (AtMost 256) (place_loop m specs args)
unfolding place_loop
place_loop-AtMost m [] args h = Gives-pure (AtMost 256) args h
place_loop-AtMost m (spec ∷ specs) args h = elim (Bool-cases (ltb 256 (length args + 2))) [
  | inl full ↦ rw full (Gives-die (AtMost 256) "too many arguments")
  | inr room ↦ rw room (
      Gives-bind_from (AtMost 256) (AtMost 2) _ _ (parse_arg-AtMost m spec) λ words few.
        elim (Bool-cases (length words == 0)) [
          | inl unknown ↦ rw unknown (Gives-fail (AtMost 256) 1 _)
          | inr known ↦ rw known (
              place_loop-AtMost m specs (args ++ words)
                (ground (arith, room, few, length-append args words)))
        ])
]

-- The arguments that the host places fit the buffer `args[256]`: whenever the loop over the argument
-- specs gives a list of words, for any module, any specs and any state, it has at most 256 words.
pub place_loop-bounded :
    (m : Module) (specs : List Text) (w w' : World) (args : List ℕ)
    → place_loop m specs [] w ≡ ok args w'
    → length args ≤ 256
place_loop-bounded m specs w w' args e =
    Gives-ok (AtMost 256) _ args w w' (place_loop-AtMost m specs [] (omega arith)) e

abbrev Few : ℕ → Type 0
Few n = n ≤ 128

at_most :
    (message : String) (count : ℕ)
    → Gives {S = World} Few (if ltb 128 count then die message else pure count)
at_most message count = elim (Bool-cases (ltb 128 count)) [
  | inl many ↦ rw many (Gives-die Few message)
  | inr few ↦ rw few (Gives-pure Few count (ground (arith, few)))
]

slots_count-Few : (text : Text) → Gives Few (slots_count text)
unfolding slots_count
slots_count-Few text = Gives-bind Few (host_parse_u64 text) _ (at_most "too many result slots")

list_count-Few : (kind : Text) → Gives Few (list_count kind)
unfolding list_count
list_count-Few kind =
    let items = length (comma_items (drop 5 kind)) in
    Gives-if Few (ltb 128 items) _ _ (Gives-die Few "too many results")
      (Gives-bind Few (count_items kind items 0 0) _ (at_most "too many results"))

count-Few : (kind : Text) → Gives Few (result_count_from_kind kind)
unfolding result_count_from_kind
count-Few kind =
    Gives-if Few
      (text_eq kind (codes "i64") || text_eq kind (codes "f64") || text_eq kind (codes "f32")) _ _
      (Gives-pure Few 1 (omega arith))
      (Gives-if Few (starts_with kind (codes "list:")) _ _ (list_count-Few kind) (
        Gives-if Few (text_eq kind (codes "bytes")) _ _ (Gives-pure Few 2 (omega arith)) (
          Gives-if Few
            (text_eq kind (codes "array-u64")
              || text_eq kind (codes "chain-u64")
              || text_eq kind (codes "tree-u64")
              || text_eq kind (codes "records-u64")
              || starts_with kind (codes "file-u64:"))
            _ _ (Gives-pure Few 1 (omega arith))
            (Gives-if Few (starts_with kind (codes "slots:")) _ _ (slots_count-Few _)
              (Gives-die Few _)))))

-- The results that a result kind describes fit the buffer `results[128]`: whenever
-- `result_count_from_kind` gives a number, for any kind and any state, it is at most 128.
pub result_count_from_kind-bounded :
    (kind : Text) (w w' : World) (n : ℕ) → result_count_from_kind kind w ≡ ok n w' → n ≤ 128
result_count_from_kind-bounded kind w w' n e = Gives-ok Few _ n w w' (count-Few kind) e
