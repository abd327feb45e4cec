-- ===== src/Gpu/Cuda/Main.antt =====
-- `main` of tools/cuda-host.c. The usage message is cut to its first line.
use leanexe.Base.{ℕ, ◌-◌, ◌^◌, List, [], ◌∷◌, ◌++◌, if◌then◌else◌, Text, text_eq, codes}
use leanexe.Base.Run.{ok}
use leanexe.Native.Parse.{is_empty}
use leanexe.Gpu.Machine.{pure, ◌>>=◌, ◌>>◌, Report}
use leanexe.Gpu.Words.{parse_word}
use leanexe.Gpu.Cuda.Driver.{Driver, Host}
use leanexe.Gpu.Cuda.Run.{info, run}
use leanexe.Gpu.Cuda.Session.{session}

-- A message on standard error and the value that `main` returns.
unfoldable pub refuse : ℕ → Report → Host ℕ
refuse status r w = ok status (record w { reports = w.reports ++ r ∷ [] })

unfoldable pub usage : Host ℕ
usage = refuse 2 (Report.line "usage: cuda-host info")

unfoldable pub run_arguments : Driver → Text → Text → Text → Text → List Text → Host ℕ
run_arguments d image entry blocks_text out inputs = do
  (blocks, end) ← parse_word blocks_text (2 ^ 32 - 1)
  if is_empty end
      then (do run d image entry blocks out inputs; pure 0)
      else refuse 1 (Report.named "bad block count: %s" blocks_text)

unfoldable pub run_mode : Driver → Text → Text → Text → Text → Text → List Text → Host ℕ
run_mode d mode image entry blocks_text out inputs =
    if text_eq mode (codes "run") then run_arguments d image entry blocks_text out inputs else usage

-- `main`, over `argv` with the program's name first.
unfoldable pub main : Driver → List Text → Host ℕ
main d (host ∷ mode ∷ []) =
    if text_eq mode (codes "info")
    then (do info d; pure 0)
    else if text_eq mode (codes "session")
    then (do session d; pure 0)
    else usage
main d (host ∷ mode ∷ image ∷ entry ∷ blocks_text ∷ out ∷ inputs) =
    run_mode d mode image entry blocks_text out inputs
main d argv = usage
