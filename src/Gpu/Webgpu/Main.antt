-- ===== src/Gpu/Webgpu/Main.antt =====
-- `main` of tools/webgpu-host.c. The usage message is cut to its first line.
use leanexe.Base.{ℕ, ◌-◌, ◌^◌, List, [], ◌∷◌, ◌++◌, if◌then◌else◌, Text, text_eq, codes}
use leanexe.Base.Run.{ok}
use leanexe.Gpu.Machine.{pure, ◌>>=◌, ◌>>◌, Report}
use leanexe.Gpu.Words.{parse_word}
use leanexe.Gpu.Webgpu.Api.{Api, Host, open_gpu}
use leanexe.Gpu.Webgpu.Run.{print_info, run}
use leanexe.Gpu.Webgpu.Session.{session}

-- A message on standard error and the value that `main` returns.
unfoldable pub usage : Host ℕ
usage w = ok 2 (record w { reports = w.reports ++ Report.line "usage: webgpu-host info" ∷ [] })

-- The modes other than `info`, by the arguments behind the mode.
unfoldable pub other_mode : Api → Text → List Text → Host ℕ
other_mode api mode [] =
    if text_eq mode (codes "session")
    then (do gpu ← open_gpu api; session api gpu; pure 0)
    else usage
other_mode api mode (shader ∷ entry ∷ workgroups_text ∷ out ∷ inputs) =
    if text_eq mode (codes "run")
    then (do
      (workgroups, end) ← parse_word workgroups_text (2 ^ 32 - 1)
      gpu ← open_gpu api
      run api gpu shader entry workgroups out inputs
      pure 0)
    else usage
other_mode api mode rest = usage

-- `main`, over `argv` with the program's name first.
unfoldable pub main : Api → List Text → Host ℕ
main api (host ∷ mode ∷ rest) =
    if text_eq mode (codes "info")
    then (do gpu ← open_gpu api; print_info api gpu; pure 0)
    else other_mode api mode rest
main api argv = usage
