-- ===== src/Gpu/Loop.antt =====
-- The loop of a session over the lines of standard input, the same in tools/cuda-host.c and
-- tools/webgpu-host.c. `run_command` runs every command but `quit`, by the line's words.
pub mod Keeps
use leanexe.Base.{
  ℕ, zero, suc, true, false, List, [], ◌∷◌, ◌==◌, if◌then◌else◌, Text, text_eq, codes, length,
}
use leanexe.Base.Lines.{fgets}
use leanexe.Base.Run.{ok, out_of_fuel}
use leanexe.Gpu.Machine.{pure, ◌>>=◌, ◌>>◌, World, M, print}
use leanexe.Gpu.Words.{line_words}

abbrev pub Commands : Type 0 → Type 0 → Type 0
Commands C E = Text → List Text → M C E (Unit {0})

module _ {C E : Type 0} where
  -- A line's words, and the rounds after it; `quit` ends the loop.
  unfoldable pub session_step : Commands C E → List Text → M C E (Unit {0}) → M C E (Unit {0})
  session_step run_command [] next = next
  session_step run_command (command ∷ words) next =
      if text_eq command (codes "quit")
      then pure tt
      else (do run_command command words; print (codes "ok\n"); next)

  -- One round reads at least a byte, so the input's length and one more suffice.
  unfoldable pub session_loop : Commands C E → ℕ → M C E (Unit {0})
  session_loop run_command zero = λ _. out_of_fuel
  session_loop run_command (suc f) = λ w. elim (length w.stdin == 0) [
    | true ↦ ok tt w
    | false ↦
        let (buffer, rest) = fgets 65535 w.stdin in
        session_step run_command (line_words buffer) (session_loop run_command f)
          (record w { stdin = rest })
  ]
