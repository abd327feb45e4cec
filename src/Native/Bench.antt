-- ===== src/Native/Bench.antt =====
-- tools/native-bench.c: the command `bench` over the native host. The clock's answers and
-- `(u64)(atof(seconds) * 1e9)` are parameters.
use leanexe.Base.{ℕ, zero, suc, ◌+◌, true, false, List, ◌∷◌, ◌++◌, ltb, Text, codes, add64, sub64}
use leanexe.Base.Decimal.{decimal}
use leanexe.Base.Run.{pure, ◌>>=◌, ◌>>◌}
use leanexe.Native.Machine.{Module, Export, Report, M, fail, print, host_get_export, host_invoke}
use leanexe.Native.Parse.{host_parse_u64}
use leanexe.Native.Call.{host_place_args, host_print_results, host_start}

module _ (clock : ℕ → ℕ) (nanoseconds : Text → ℕ) where
  -- The timed calls: the first argument is `most - count`, `tick` the number of times that the clock
  -- was read. The results are those of the last call.
  unfoldable pub bench_loop :
      ℕ
      → Module
      → Export
      → Text
      → Text
      → List Text
      → ℕ
      → ℕ
      → ℕ
      → List ℕ
      → ℕ
      → ℕ
      → M (List ℕ × ℕ × ℕ)
  bench_loop zero m e name kind argv start limit tick results count total =
      pure (results, count, total)
  bench_loop (suc n) m e name kind argv start limit tick results count total =
      elim (ltb (sub64 (clock tick) start) limit) [
        | false ↦ pure (results, count, total)
        | true ↦ do
          (args, nresults) ← host_place_args m e name kind argv
          results ← host_invoke e args
          bench_loop n m e name kind argv start limit (tick + 3) results (count + 1)
              (add64 total (sub64 (clock (tick + 2)) (clock (tick + 1))))
      ]

  unfoldable pub bench_export : Module → Text → Text → Text → Text → List Text → M (Unit {0})
  bench_export m seconds max func_name kind argv = do
    e ← host_get_export m func_name
    most ← host_parse_u64 max
    (args, nresults) ← host_place_args m e func_name kind argv
    results ← host_invoke e args
    (results, count, total) ←
        bench_loop most m e func_name kind argv (clock 0) (nanoseconds seconds) 1 results 0 0
    host_print_results kind results nresults
    print (codes "bench " ++ (decimal count ++ (codes " " ++ (decimal total ++ codes "\n"))))

  -- The command `bench` after the program's name; every other command goes to the host's `main`.
  unfoldable pub bench_command : Module → List Text → M ℕ
  bench_command m (seconds ∷ max ∷ func_name ∷ kind ∷ argv) = do
    host_start m
    bench_export m seconds max func_name kind argv
    pure 0
  bench_command m argv = fail 2 (Report.line "usage: HOST bench SECONDS MAX FUNC RESULT [ARG...]")
