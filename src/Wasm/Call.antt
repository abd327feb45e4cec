-- ===== src/Wasm/Call.antt =====
-- The calls of exports by the Wasmtime host: `call_export`, the benchmark, and the reads of globals.
use leanexe.Base.{
  ℕ, zero, suc, ◌+◌, Bool, true, false, ◌&&◌, none, some, List, [], ◌++◌, ltb, if◌then◌else◌, Text,
  codes, add64, sub64,
}
use leanexe.Base.Decimal.{decimal}
use leanexe.Base.Run.{ok, pure, ◌>>=◌, ◌>>◌}
use leanexe.Wasm.Machine.{Val, Func, Extern, Engine, Report, M, print, now_ns}
use leanexe.Wasm.Outcome.{die, fail, call_func}
use leanexe.Wasm.Parse.{parse_u64}
use leanexe.Wasm.Start.{search_exports, get_func, val_at, is_i64}
use leanexe.Wasm.Args.{place_args}
use leanexe.Wasm.Kinds.{result_slots}
use leanexe.Wasm.Results.{print_call_results}

unfoldable pub call_export : Text → Text → List Text → M (Unit {0})
call_export func_name result_kind argv = do
  func ← get_func func_name
  args ← place_args argv
  nresults ← result_slots result_kind
  results ← call_func func args nresults 2
  print_call_results result_kind results nresults

-- The timed calls: the first argument is `most - count`, and the results are those of the last call.
unfoldable pub bench_loop :
    ℕ → Func → Text → List Text → ℕ → ℕ → List Val → ℕ → ℕ → M (List Val × ℕ × ℕ)
bench_loop zero func kind argv start limit results count total = pure (results, count, total)
bench_loop (suc n) func kind argv start limit results count total = do
  now ← now_ns
  elim (ltb (sub64 now start) limit) [
    | false ↦ pure (results, count, total)
    | true ↦ do
      args ← place_args argv
      nresults ← result_slots kind
      before ← now_ns
      results ← call_func func args nresults 2
      after ← now_ns
      bench_loop n func kind argv start limit results (count + 1) (add64 total (sub64 after before))
  ]

unfoldable pub print_bench : Text → ℕ → List Val × ℕ × ℕ → M (Unit {0})
print_bench kind nresults (results, count, total) = do
  print_call_results kind results nresults
  print (codes "bench " ++ (decimal count ++ (codes " " ++ (decimal total ++ codes "\n"))))

unfoldable pub bench_export : Engine → Text → Text → Text → Text → List Text → M (Unit {0})
bench_export g seconds max func_name result_kind argv = do
  func ← get_func func_name
  most ← parse_u64 max
  args ← place_args argv
  nresults ← result_slots result_kind
  results ← call_func func args nresults 2
  start ← now_ns
  last ← bench_loop most func result_kind argv start (g.nanoseconds seconds) results 0 0
  print_bench result_kind nresults last

unfoldable pub read_global_item : Text → Extern → M ℕ
read_global_item name (Extern.global i kind) w =
    if is_i64 kind then ok (w.store.globals i) w else die "expected i64 global" w
read_global_item name Extern.memory w = fail (Report.named "export is not a global: %s" name) w
read_global_item name (Extern.func f) w = fail (Report.named "export is not a global: %s" name) w
read_global_item name Extern.table w = fail (Report.named "export is not a global: %s" name) w

unfoldable pub read_global_u64 : Text → M ℕ
read_global_u64 name w = elim (search_exports name w.exports) [
  | none ↦ fail (Report.named "missing export: %s" name) w
  | some item ↦ read_global_item name item w
]

unfoldable pub print_stats : M (Unit {0})
print_stats = do
  allocs ← read_global_u64 (codes "allocCount")
  frees ← read_global_u64 (codes "freeCount")
  print (codes "stats " ++ (decimal allocs ++ (codes " " ++ (decimal frees ++ codes "\n"))))

unfoldable pub all_i64 : ℕ → List Val → ℕ → Bool
all_i64 zero results i = true
all_i64 (suc n) results i = is_i64 (val_at results i).kind && all_i64 n results (i + 1)

unfoldable pub invoke_func : Func → List Val → ℕ → M (List Val)
invoke_func func args nresults = do
  results ← call_func func args nresults 2
  if all_i64 nresults results 0 then pure results else die "expected i64 result"

unfoldable pub invoke_noarg : Text → ℕ → M (List Val)
invoke_noarg func_name nresults = do func ← get_func func_name; invoke_func func [] nresults
