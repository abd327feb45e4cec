-- ===== src/Gpu/Tests.antt =====
-- The theorems about the hosts of GPU kernels at concrete inputs.
use leanexe.Base.{[], arith, ◌≡◌, refl, some, none, Text, codes, text_eq, if◌then◌else◌}
use leanexe.Gpu.Machine.Totals.{Ends}
use leanexe.Gpu.Cuda.Queue.{IsOrdered, IsIdle, queue_after}
use leanexe.Gpu.Cuda.Queue.Main.{main-IsOrdered}
use leanexe.Gpu.Table.{find_entry, free_entry}
use leanexe.Gpu.Table.Map.{IsDistinct, free-Removes}
use leanexe.Gpu.Cuda.Memory.{Blocks, blocks_after, IsInside}
use leanexe.Gpu.Cuda.Memory.Owns.{Owns}
use leanexe.Gpu.Cuda.Memory.Main.{main-IsInside}
use leanexe.Gpu.Table.Tidy.{IsTidy}
use leanexe.Gpu.Webgpu.Api.{Held}
use leanexe.Gpu.Webgpu.Main.{main as webgpu_main}
use leanexe.Gpu.Webgpu.Ends.Main.{main-IsTidy}
use leanexe.Gpu.ToyApi.{toy_api, toy_api-Answers, webgpu_started, webgpu_arguments}
use leanexe.Gpu.Cuda.Main.{main}
use leanexe.Gpu.Examples.{toy_driver, started, session_input, session_arguments, three_entries}
use leanexe.Gpu.Toy.{toy_driver-Allocates}

empty_IsTidy : IsTidy {E = Held} []
unfolding IsDistinct find_entry
empty_IsTidy = record {
  distinct = tt;
  few = omega arith;
  short = λ n h e. absurd (grind (arith, e));
}

main-IsOrdered_example :
    Ends IsOrdered
      (λ status calls t. IsIdle calls)
      (main toy_driver session_arguments (started session_input))
unfolding IsIdle queue_after
main-IsOrdered_example = main-IsOrdered toy_driver session_arguments (started session_input) refl

main-IsInside_example :
    Ends
      (IsInside toy_driver)
      (λ status calls t. (bs : Blocks) × ((blocks_after toy_driver calls ≡ some bs) × Owns bs t))
      (main toy_driver session_arguments (started session_input))
main-IsInside_example =
    main-IsInside toy_driver session_arguments (started session_input) toy_driver-Allocates refl
      refl

free-Removes_example :
    IsDistinct (free_entry (codes "a") three_entries)
    × ((n : Text)
        → find_entry n (free_entry (codes "a") three_entries)
          ≡ (if text_eq (codes "a") n then none else find_entry n three_entries))
unfolding IsDistinct find_entry text_eq
free-Removes_example = free-Removes (codes "a") three_entries (refl, (refl, (refl, tt)))

main-IsTidy_example :
    Ends
      (λ calls. Unit)
      (λ status calls t. IsTidy t)
      (webgpu_main toy_api webgpu_arguments (webgpu_started session_input))
main-IsTidy_example =
    main-IsTidy toy_api webgpu_arguments (webgpu_started session_input) toy_api-Answers empty_IsTidy
