-- ===== src/Gpu/Cuda/Queue/Main.antt =====
-- What a process of tools/cuda-host.c releases while work is queued.
use leanexe.Base.{ℕ, refl, List, [], ◌∷◌, inr, Text}
use leanexe.Gpu.Machine.{Report}
use leanexe.Gpu.Machine.Triples.{Triple, triple, keeps_rules}
use leanexe.Gpu.Machine.Totals.{
  Ends, Total, Total-at, Triple-Total, Total-if, Total-bind, Total-keeps, Total-from,
}
use leanexe.Gpu.Words.Keeps.{Keeps-parse_word}
use leanexe.Gpu.Loop.Keeps.{Total-session_loop}
use leanexe.Gpu.Cuda.Driver.{Call, Driver, CudaWorld}
use leanexe.Gpu.Cuda.Queue.{role, IsOrdered, IsIdle}
use leanexe.Gpu.Cuda.Queue.Calls.{
  Safe, Idle, Idle-IsOrdered, IsCommon, Idle-Safe, check-common, synchronize-bind, Idle-weaken,
}
use leanexe.Gpu.Cuda.Queue.Run.{Safe-open_device, Idle-info, Safe-run}
use leanexe.Gpu.Cuda.Queue.Session.{Safe-run_command}
use leanexe.Gpu.Cuda.Session.{session, run_command}
use leanexe.Gpu.Cuda.Main.{refuse, usage, run_arguments, run_mode, main}

Safe-session : (d : Driver) → Total IsOrdered Safe (λ _. Idle) (session d)
unfolding session IsCommon role
Safe-session d =
    Total-bind (λ _. Safe) _ _ _ (Triple-Total _ _ (Safe-open_device d))
      λ device.
        Total-bind (λ _. Safe) _ _ _
          (Triple-Total _ _ (check-common d Call.stream_create _ (inr refl)))
          λ stream.
            Total-bind (λ _. Safe) _ _ _
              (Total-session_loop IsOrdered Safe (run_command d) (Safe-run_command d))
              λ done. Triple-Total _ _ (search (keeps_rules, synchronize-bind))

Idle-refuse : (status : ℕ) (r : Report) → Triple IsOrdered Idle (λ _. Idle) (refuse status r)
unfolding refuse
Idle-refuse status r = triple λ w p. (p, refl)

Idle-run_arguments :
    (d : Driver) (image entry blocks out : Text) (inputs : List Text)
    → Triple IsOrdered Idle (λ _. Idle) (run_arguments d image entry blocks out inputs)
unfolding run_arguments
Idle-run_arguments d image entry blocks out inputs =
    search (keeps_rules, Keeps-parse_word, Idle-IsOrdered, Idle-weaken, Safe-run, Idle-refuse) depth
      16

Idle-session : (d : Driver) → Total IsOrdered Idle (λ _. Idle) (session d)
Idle-session d = Total-from Safe _ _ Idle-Safe (Safe-session d)

Idle-main : (d : Driver) (argv : List Text) → Total IsOrdered Idle (λ _. Idle) (main d argv)
unfolding main run_mode usage
Idle-main d (host ∷ mode ∷ image ∷ entry ∷ blocks ∷ out ∷ inputs) =
    Triple-Total _ _ (search (keeps_rules, Idle-run_arguments, Idle-refuse))
Idle-main d (host ∷ mode ∷ []) =
    search (Total-if, Total-keeps, Triple-Total, keeps_rules, Idle-info, Idle-session, Idle-refuse)
      depth 12
Idle-main d argv = Triple-Total _ _ (Idle-refuse _ _)

-- For every driver, whatever its calls answer, and for all arguments and all input, a process of
-- cuda-host that starts with an idle stream ends: it never calls cuMemFree, cuModuleUnload or
-- cuStreamDestroy and never frees the words of a buffer while work is queued, and where main returns,
-- no work is left in the queue.
pub main-IsOrdered :
    (d : Driver) (argv : List Text) (w : CudaWorld)
    → IsIdle w.calls
    → Ends IsOrdered (λ status calls t. IsIdle calls) (main d argv w)
unfolding Idle
main-IsOrdered d argv w h = Total-at IsOrdered Idle (λ _. Idle) (main d argv) (Idle-main d argv) w h
