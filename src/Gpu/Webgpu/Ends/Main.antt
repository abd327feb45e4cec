-- ===== src/Gpu/Webgpu/Ends/Main.antt =====
-- A process of tools/webgpu-host.c ends, and keeps its table in bounds.
use leanexe.Base.{refl, List, [], ◌∷◌, Text}
use leanexe.Gpu.Table.Tidy.{IsTidy}
use leanexe.Gpu.Machine.Triples.{Triple, triple}
use leanexe.Gpu.Machine.Totals.{Ends, Total, Total-at, Triple-Total, Total-if, Total-keeps}
use leanexe.Gpu.Words.Keeps.{Keeps-parse_word}
use leanexe.Gpu.Loop.Keeps.{Total-session_loop}
use leanexe.Gpu.Webgpu.Api.{Api, Gpu, WebgpuWorld}
use leanexe.Gpu.Webgpu.Ends.{Anyhow, Tidy, Answers, call_rules, Keeps-open_gpu}
use leanexe.Gpu.Webgpu.Ends.Run.{Keeps-print_info, Keeps-run}
use leanexe.Gpu.Webgpu.Ends.Session.{Keeps-run_command}
use leanexe.Gpu.Webgpu.Session.{session, run_command}
use leanexe.Gpu.Webgpu.Main.{usage, other_mode, main}

module _ (api : Api) (answers : Answers api) where
  Total-session : (gpu : Gpu) → Total Anyhow Tidy (λ _. Tidy) (session api gpu)
  unfolding session
  Total-session gpu =
      Total-session_loop Anyhow Tidy (run_command api gpu) (Keeps-run_command api answers gpu)

  Keeps-usage : Triple Anyhow Tidy (λ _. Tidy) usage
  unfolding usage
  Keeps-usage = triple λ w p. (p, refl)

  ruleset main_rules = (
    Total-if, Total-keeps, Triple-Total, call_rules, Keeps-open_gpu, Keeps-print_info,
    Keeps-parse_word, Keeps-usage, Keeps-run, Total-session,
  )

  Total-other_mode :
      (mode : Text) (rest : List Text) → Total Anyhow Tidy (λ _. Tidy) (other_mode api mode rest)
  unfolding other_mode
  Total-other_mode mode [] = search main_rules depth 12
  Total-other_mode mode (shader ∷ entry ∷ workgroups ∷ out ∷ inputs) = search main_rules depth 16
  Total-other_mode mode rest = search main_rules

  Total-main : (argv : List Text) → Total Anyhow Tidy (λ _. Tidy) (main api argv)
  unfolding main
  Total-main (host ∷ mode ∷ rest) = search (main_rules, Total-other_mode) depth 12
  Total-main argv = search main_rules

-- Where the callback of each request is called within `rounds` polls, a process of webgpu-host that
-- starts with a table in bounds ends, for all arguments and all input: no loop that waits for a
-- callback and no loop over the input runs on. Where main returns, the table has at most 4,096
-- entries, with different names of less than 64 bytes.
pub main-IsTidy :
    (api : Api) (argv : List Text) (w : WebgpuWorld)
    → Answers api
    → IsTidy w.entries
    → Ends (λ calls. Unit) (λ status calls t. IsTidy t) (main api argv w)
unfolding Tidy
main-IsTidy api argv w answers tidy =
    Total-at Anyhow Tidy (λ _. Tidy) (main api argv) (Total-main api answers argv) w tidy
