-- ===== src/Wasm/ScriptLoop.antt =====
-- The loop of `command_script` over the lines of standard input.
use leanexe.Base.{
  ℕ, zero, suc, ◌+◌, Bool, true, false, ◌&&◌, ◌||◌, not, none, some, List, [], ◌∷◌, ◌==◌,
  if◌then◌else◌, Text, text_eq, length, codes,
}
use leanexe.Base.Run.{out_of_fuel, ◌>>=◌, ◌>>◌}
use leanexe.Base.Lines.{fgets, c_string, strtok}
use leanexe.Wasm.Machine.{M}
use leanexe.Wasm.Outcome.{die}
use leanexe.Wasm.Script.{Script, start, require}
use leanexe.Wasm.Commands.{run_command, flush_session}

unfoldable pub is_line_end : ℕ → Bool
is_line_end c = c == b'\n' || c == b'\r'

-- Without the line ends at the end.
unfoldable pub strip_end : Text → Text
strip_end [] = []
strip_end (c ∷ s) = elim (strip_end s) [
  | [] ↦ if is_line_end c then [] else c ∷ []
  | d ∷ t ↦ c ∷ d ∷ t
]

unfoldable pub ends_line : Text → Bool
ends_line [] = false
ends_line (c ∷ []) = c == b'\n'
ends_line (c ∷ d ∷ s) = ends_line (d ∷ s)

unfoldable pub too_long : Text → Bool
too_long line = (length line == 16383) && not (ends_line line)

unfoldable pub finish_script : Script → M (Unit {0})
finish_script s w =
    if w.stdin_error
    then die "cannot read script input" w
    else require s.called "script ended before call" w

-- A command, and the rounds after it.
unfoldable pub run_line : Bool → Script → Text → Text → (Script → M (Unit {0})) → M (Unit {0})
run_line session s command arguments next =
    if text_eq command (codes "done")
    then require s.called "done requires a prior call"
    else (do s ← run_command session s command arguments; flush_session session; next s)

unfoldable pub script_step : Bool → Script → Text → (Script → M (Unit {0})) → M (Unit {0})
script_step session s line next =
    if too_long line
    then die "script command is too long"
    else (let (command, arguments) = strtok (strip_end line) in
        elim command [ none ↦ next s | some command ↦ run_line session s command arguments next ])

-- One round reads at least a byte, so the input's length and one more suffice.
unfoldable pub script_loop : ℕ → Bool → Script → M (Unit {0})
script_loop zero session s w = out_of_fuel
script_loop (suc f) session s w = elim (length w.stdin == 0) [
  | true ↦ finish_script s w
  | false ↦
      let (buffer, rest) = fgets 16383 w.stdin in
      script_step session s (c_string buffer) (script_loop f session) (record w { stdin = rest })
]

unfoldable pub command_script : List Text → Bool → M (Unit {0})
command_script [] session w = script_loop (length w.stdin + 1) session start w
command_script (arg ∷ argv) session w = die "usage: script|session <module.wasm>" w
