-- ===== src/Wasm/Checks.antt =====
-- The allocator checks of the Wasmtime host: the modes that test `release`, `free`, the reuse of
-- temporaries and the growth of the memory.
use Prim.Native.String.{String}
use leanexe.Base.{
  ℕ, ◌+◌, ◌-◌, ◌||◌, List, [], ◌∷◌, ltb, leb, ◌==◌, if◌then◌else◌, Text, text_eq, length, codes,
}
use leanexe.Base.Run.{ok, pure, ◌>>=◌, ◌>>◌}
use leanexe.Native.Show.{bytes_at}
use leanexe.Native.Memory.{update}
use leanexe.Wasm.Machine.{Val, Report, M}
use leanexe.Wasm.Outcome.{die, fail}
use leanexe.Wasm.Parse.{parse_hex, parse_u64, parse_u64_list}
use leanexe.Wasm.Start.{
  get_func, i64_val, val_at, call_void_i64_func, call_alloc, required_runtime_func, reset_runtime,
}
use leanexe.Wasm.Memory.{check_range, set_memory}
use leanexe.Wasm.Alloc.{alloc_bytes, alloc_u64_array}
use leanexe.Wasm.Call.{invoke_func, invoke_noarg}

unfoldable pub expect_eq_u64 : String → ℕ → ℕ → M (Unit {0})
expect_eq_u64 label expected actual =
    if expected == actual then pure tt else fail (Report.mismatch label expected actual)

-- `qsort` with `compare_u64`.
unfoldable pub insert : ℕ → List ℕ → List ℕ
insert x [] = x ∷ []
insert x (y ∷ ys) = if ltb y x then y ∷ insert x ys else x ∷ y ∷ ys

unfoldable pub qsort : List ℕ → List ℕ
qsort [] = []
qsort (x ∷ xs) = insert x (qsort xs)

unfoldable pub expect_same_multiset : String → List ℕ → List ℕ → M (Unit {0})
expect_same_multiset label expected actual =
    if text_eq (qsort expected) (qsort actual)
    then pure tt
    else fail (Report.named "%s: pointer set differs" (codes label))

-- The checks that a pointer given back to the allocator is the next one that it gives.
unfoldable pub release_reuse : Text → ℕ → ℕ → ℕ → M (Unit {0})
release_reuse name nresults ptr_index alloc_size =
    if ltb 128 nresults || leb nresults ptr_index then die "invalid result index" else (do
      results ← invoke_noarg name nresults
      release ← required_runtime_func (codes "release")
      call_void_i64_func release (val_at results ptr_index).bits
      reused ← call_alloc alloc_size
      expect_eq_u64 "release reuse" (val_at results ptr_index).bits reused)

unfoldable pub command_release_reuse : List Text → M (Unit {0})
command_release_reuse (name ∷ nresults ∷ ptr_index ∷ alloc_size ∷ []) = do
  nresults ← parse_u64 nresults
  ptr_index ← parse_u64 ptr_index
  alloc_size ← parse_u64 alloc_size
  release_reuse name nresults ptr_index alloc_size
command_release_reuse argv =
    die "usage: release-reuse <module.wasm> <function> <nresults> <ptr-index> <alloc-size>"

unfoldable pub expect_bytes : ℕ → Text → M (Unit {0})
expect_bytes ptr expected w =
    if text_eq (bytes_at (length expected) w.store.memory ptr) expected
    then ok tt w
    else die "unexpected byte result" w

unfoldable pub expect_len : ℕ → ℕ → M (Unit {0})
expect_len len expected = if len == expected then pure tt else die "unexpected byte length"

unfoldable pub command_free_alias : List Text → M (Unit {0})
command_free_alias (name ∷ hex ∷ []) = do
  expected ← parse_hex hex
  results ← invoke_noarg name 2
  expect_len (val_at results 1).bits (length expected)
  check_range (val_at results 0).bits (val_at results 1).bits "ByteArray result is outside memory"
  expect_bytes (val_at results 0).bits expected
  free_func ← required_runtime_func (codes "free")
  call_void_i64_func free_func (val_at results 0).bits
  reused ← call_alloc (val_at results 1).bits
  expect_eq_u64 "free alias reuse" (val_at results 0).bits reused
command_free_alias argv = die "usage: free-alias <module.wasm> <function> <expected-hex>"

-- A call with the argument placed again after a second reset, whose temporaries must be free after
-- it: the allocator gives the pointer that it gave before the call.
unfoldable pub check_temporaries : Text → List Val → ℕ → ℕ → ℕ → M (Unit {0})
check_temporaries name args expected_result temp_size expected_temp = do
  func ← get_func name
  results ← invoke_func func args 1
  expect_eq_u64 "function result" expected_result (val_at results 0).bits
  reused ← call_alloc temp_size
  expect_eq_u64 "temporary reuse" expected_temp reused

unfoldable pub command_temp_byte_call : List Text → M (Unit {0})
command_temp_byte_call (name ∷ hex ∷ expected_result ∷ temp_size ∷ []) = do
  input ← parse_hex hex
  expected_result ← parse_u64 expected_result
  temp_size ← parse_u64 temp_size
  reset_runtime
  probe_input ← call_alloc (length input)
  expected_temp ← call_alloc temp_size
  reset_runtime
  input_ptr ← alloc_bytes input
  expect_eq_u64 "reset input pointer" probe_input input_ptr
  check_temporaries name (i64_val input_ptr ∷ i64_val (length input) ∷ []) expected_result temp_size
      expected_temp
command_temp_byte_call argv =
    die "usage: temp-byte-call <module.wasm> <function> <input-hex> <expected-result> <temp-size>"

unfoldable pub command_temp_array_call : List Text → M (Unit {0})
command_temp_array_call (name ∷ list ∷ expected_result ∷ temp_size ∷ []) = do
  values ← parse_u64_list list
  expected_result ← parse_u64 expected_result
  temp_size ← parse_u64 temp_size
  reset_runtime
  probe_input ← alloc_u64_array values
  expected_temp ← call_alloc temp_size
  reset_runtime
  input_ptr ← alloc_u64_array values
  expect_eq_u64 "reset array pointer" probe_input input_ptr
  check_temporaries name (i64_val input_ptr ∷ []) expected_result temp_size expected_temp
command_temp_array_call argv =
    die "usage: temp-array-call <module.wasm> <function> <u64-list> <expected-result> <temp-size>"

unfoldable pub alloc_all : List ℕ → M (List ℕ)
alloc_all [] = pure []
alloc_all (size ∷ sizes) = do ptr ← call_alloc size; ptrs ← alloc_all sizes; pure (ptr ∷ ptrs)

unfoldable pub command_noarg_temp_reuse : List Text → M (Unit {0})
command_noarg_temp_reuse (name ∷ expected_result ∷ sizes ∷ []) = do
  expected_result ← parse_u64 expected_result
  sizes ← parse_u64_list sizes
  reset_runtime
  expected ← alloc_all sizes
  reset_runtime
  result ← invoke_noarg name 1
  expect_eq_u64 "function result" expected_result (val_at result 0).bits
  actual ← alloc_all sizes
  expect_same_multiset "temporary reuse" expected actual
command_noarg_temp_reuse argv =
    die "usage: noarg-temp-reuse <module.wasm> <function> <expected-result> <alloc-sizes>"

unfoldable pub memory_size : M ℕ
memory_size w = ok w.store.size w

unfoldable pub expect_growth : ℕ → ℕ → M (Unit {0})
expect_growth before after = if ltb before after then pure tt else die "alloc did not grow memory"

unfoldable pub command_allocator_grows : List Text → M (Unit {0})
command_allocator_grows [] = do
  reset_runtime
  before ← memory_size
  ptr ← call_alloc before
  after ← memory_size
  expect_growth before after
  check_range ptr before "grown allocation exceeds memory"
  λ w. ok tt (set_memory (update w.store.memory (ptr + before - 1) 123) w)
command_allocator_grows (arg ∷ argv) = die "usage: allocator-grows <module.wasm>"
