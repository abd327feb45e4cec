-- ===== src/Gpu/Cuda/Memory/Main.antt =====
-- What a process of tools/cuda-host.c does with the memory of the device.
use leanexe.Base.{ℕ, ◌≡◌, refl, sym, some, arith, List, [], ◌∷◌, Text}
use mathlib.Core.Path.{subst}
use leanexe.Gpu.Table.{Table, find_entry}
use leanexe.Gpu.Table.Map.{IsDistinct}
use leanexe.Gpu.Machine.{Report}
use leanexe.Gpu.Machine.Triples.{Triple, triple, Keeps-bind, Keeps-pure, keeps_rules}
use leanexe.Gpu.Machine.Totals.{
  Ends, Ends-weaken, Total, Total-at, Triple-Total, Total-if, Total-keeps,
}
use leanexe.Gpu.Words.Keeps.{Keeps-parse_word}
use leanexe.Gpu.Loop.Keeps.{Total-session_loop}
use leanexe.Gpu.Cuda.Driver.{Call, Driver, Held, CudaWorld, synchronize}
use leanexe.Gpu.Cuda.Memory.{Blocks, memory_step, blocks_after, IsInside, Allocates}
use leanexe.Gpu.Cuda.Memory.Owns.{Owns}
use leanexe.Gpu.Cuda.Memory.Calls.{With, Any, With-IsInside, check-keeps}
use leanexe.Gpu.Cuda.Memory.Kernels.{Triple-run_command}
use leanexe.Gpu.Cuda.Memory.Run.{Triple-open_device, Triple-info, Triple-run}
use leanexe.Gpu.Cuda.Session.{session, run_command}
use leanexe.Gpu.Cuda.Main.{refuse, usage, run_arguments, run_mode, main}

module _ (d : Driver) (allocates : Allocates d) where
  Total-session : Total (IsInside d) (With d Any) (λ _. With d Any) (session d)
  unfolding session synchronize memory_step
  Total-session = Total-keeps _ _ _ (Triple-Total _ _ (Triple-open_device d Any)) λ device.
      Total-keeps _ _ _ (Triple-Total _ _ (check-keeps d Any _ _ (λ bs t r v f. refl))) λ stream.
        Total-keeps _ _ _
          (Total-session_loop (IsInside d) (With d Any) (run_command d)
            (Triple-run_command d allocates))
          λ done. Triple-Total _ _ (
            Keeps-bind _ _ _ (check-keeps d Any Call.stream_synchronize _ (λ bs t r v f. refl))
              λ idle. Keeps-pure tt)

  Triple-refuse :
      (status : ℕ) (r : Report)
      → Triple (IsInside d) (With d Any) (λ _. With d Any) (refuse status r)
  unfolding refuse
  Triple-refuse status r = triple λ w p. (p, refl)

  Triple-run_arguments :
      (image entry blocks out : Text) (inputs : List Text)
      → Triple
          (IsInside d)
          (With d Any)
          (λ _. With d Any)
          (run_arguments d image entry blocks out inputs)
  unfolding run_arguments
  Triple-run_arguments image entry blocks out inputs =
      search (keeps_rules, Keeps-parse_word, With-IsInside, Triple-run, Triple-refuse) depth 16

  Total-main : (argv : List Text) → Total (IsInside d) (With d Any) (λ _. With d Any) (main d argv)
  unfolding main run_mode usage
  Total-main (host ∷ mode ∷ image ∷ entry ∷ blocks ∷ out ∷ inputs) =
      Triple-Total _ _ (search (keeps_rules, Triple-run_arguments, Triple-refuse))
  Total-main (host ∷ mode ∷ []) =
      search
        (
          Total-if, Total-keeps, Triple-Total, keeps_rules, Triple-info, Total-session,
          Triple-refuse,
        )
        depth 12
  Total-main argv = Triple-Total _ _ (Triple-refuse _ _)

no_entry : (n : Text) (h : Held) → find_entry n [] ≡ some h → ⊥
unfolding find_entry
no_entry n h e = grind (arith, e)

Owns-With :
    (d : Driver) (calls : List Call) (t : Table Held)
    → With d Any calls t
    → (bs : Blocks) × ((blocks_after d calls ≡ some bs) × Owns bs t)
unfolding With
Owns-With d calls t (bs, (e, (o, any))) = (bs, (e, o))

With-start : (d : Driver) → With d Any [] []
unfolding With blocks_after IsDistinct
With-start d = (
  [],
  (
    refl,
    (
      record {
        distinct = tt;
        backs = λ n h e. absurd (no_entry n h e);
        apart = λ n m h k e. absurd (no_entry n h e);
      },
      tt,
    ),
  ),
)

-- Where cuMemAlloc gives the address of a new block, for all arguments and all input a process of
-- cuda-host that starts with no calls and an empty table ends, and every call on the way stays in
-- bounds: each copy and memset within one block, each kernel launched on blocks, each cuMemFree on a
-- block that was not freed before. Where main returns, the names in the table are different, each
-- buffer in it is a block of its size, and no two entries share one.
pub main-IsInside :
    (d : Driver) (argv : List Text) (w : CudaWorld)
    → Allocates d
    → w.calls ≡ []
    → w.entries ≡ []
    → Ends
        (IsInside d)
        (λ status calls t. (bs : Blocks) × ((blocks_after d calls ≡ some bs) × Owns bs t))
        (main d argv w)
main-IsInside d argv w allocates no_calls no_entries =
    let start =
      subst (λ t. With d Any w.calls t) (sym no_entries)
        (subst (λ calls. With d Any calls []) (sym no_calls) (With-start d)) in
    Ends-weaken (IsInside d) (λ _. With d Any) _ (main d argv w) (λ a. Owns-With d)
      (Total-at (IsInside d) (With d Any) (λ _. With d Any) (main d argv)
        (Total-main d allocates argv) w start)
