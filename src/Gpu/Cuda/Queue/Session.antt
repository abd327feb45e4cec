-- ===== src/Gpu/Cuda/Queue/Session.antt =====
-- The commands of a session release only what no queued work may use.
use leanexe.Base.{ℕ, suc, zero, ◌≡◌, List, [], ◌∷◌, Text, Bool, true, false}
use leanexe.Gpu.Table.{free_entry}
use leanexe.Gpu.Machine.Triples.{Triple, Keeps-edit, keeps_rules}
use leanexe.Gpu.Words.Keeps.{Keeps-parse_word}
use leanexe.Gpu.Cuda.Driver.{Call, Driver, Held}
use leanexe.Gpu.Cuda.Buffers.Keeps.{Keeps-read_file, Keeps-parse_buffer}
use leanexe.Gpu.Cuda.Queue.{Role, role, IsOrdered}
use leanexe.Gpu.Cuda.Queue.Calls.{
  Safe, Idle, Safe-IsOrdered, Idle-IsOrdered, Safe-any, Idle-any, IsCommon, check-frees,
  Idle-release_host_words, Safe-after, synchronize-bind,
}
use leanexe.Gpu.Cuda.Queue.Run.{common_rules}
use leanexe.Gpu.Cuda.Session.{
  check_if, release, new_entry, empty_entry, allocate, buffer_entry, no_buffer, need_buffer,
  store_words, load, output, kernel, no_kernel, need_kernel, input_buffers, parse_blocks, launch,
  run_kernel, read_buffer, drop_entry, free_named, run_command,
}

Idle-check_if :
    (releases : Bool) (d : Driver) (c : Call) (n : ℕ)
    → role c ≡ Role.frees
    → Triple IsOrdered Idle (λ _. Idle) (check_if releases d c n)
unfolding check_if
Idle-check_if true d c n e = search (keeps_rules, check-frees) depth 10
Idle-check_if false d c n e = search keeps_rules

Idle-release :
    (d : Driver) (name : Text) (held : Held)
    → Triple IsOrdered Safe (λ _. Idle) (release d name held)
unfolding release role
Idle-release d name held = search (keeps_rules, synchronize-bind, Idle-check_if, Idle-any) depth 20

Safe-release :
    (d : Driver) (name : Text) (held : Held)
    → Triple IsOrdered Safe (λ _. Safe) (release d name held)
Safe-release d name held = Safe-after Safe _ (Idle-release d name held)

Safe-new_entry : (name : Text) → Triple IsOrdered Safe (λ _. Safe) (new_entry name)
unfolding new_entry
Safe-new_entry name = search (keeps_rules, Safe-IsOrdered, Safe-any) depth 10

ruleset session_rules = (
  common_rules, Safe-IsOrdered, Safe-any, Safe-release, Safe-new_entry, Keeps-read_file,
  Keeps-parse_buffer, Keeps-parse_word,
)

Safe-empty_entry :
    (d : Driver) (name : Text) → Triple IsOrdered Safe (λ _. Safe) (empty_entry d name)
unfolding empty_entry
Safe-empty_entry d name = search session_rules depth 10

Safe-allocate :
    (d : Driver) (name : Text) (bytes : ℕ)
    → Triple IsOrdered Safe (λ _. Safe) (allocate d name bytes)
unfolding allocate IsCommon role
Safe-allocate d name bytes = search (session_rules, Safe-empty_entry) depth 16

Safe-buffer_entry :
    (d : Driver) (name : Text) (bytes : ℕ)
    → Triple IsOrdered Safe (λ _. Safe) (buffer_entry d name bytes)
unfolding buffer_entry
Safe-buffer_entry d name bytes = search (session_rules, Safe-allocate) depth 16

Safe-need_buffer : (name : Text) → Triple IsOrdered Safe (λ _. Safe) (need_buffer name)
unfolding need_buffer no_buffer
Safe-need_buffer name = search session_rules depth 16

Idle-store_words :
    (d : Driver) (name : Text) (words : List ℕ)
    → Triple IsOrdered Safe (λ _. Idle) (store_words d name words)
unfolding store_words IsCommon role
Idle-store_words d name words =
    search (session_rules, Safe-buffer_entry, synchronize-bind, Idle-release_host_words) depth 16

Safe-load : (d : Driver) (name spec : Text) → Triple IsOrdered Safe (λ _. Safe) (load d name spec)
unfolding load
Safe-load d name spec = search (session_rules, Safe-after, Idle-store_words) depth 16

Safe-output :
    (d : Driver) (name size : Text) → Triple IsOrdered Safe (λ _. Safe) (output d name size)
unfolding output IsCommon role
Safe-output d name size = search (session_rules, Safe-buffer_entry) depth 24

Safe-kernel :
    (d : Driver) (name path : Text) → Triple IsOrdered Safe (λ _. Safe) (kernel d name path)
unfolding kernel IsCommon role
Safe-kernel d name path = search (session_rules, Safe-empty_entry) depth 24

Safe-need_kernel : (name : Text) → Triple IsOrdered Safe (λ _. Safe) (need_kernel name)
unfolding need_kernel no_kernel
Safe-need_kernel name = search session_rules depth 16

Safe-input_buffers :
    (out : Text) (names : List Text) → Triple IsOrdered Safe (λ _. Safe) (input_buffers out names)
unfolding input_buffers
Safe-input_buffers out [] = search session_rules
Safe-input_buffers out (name ∷ names) =
    let rest = Safe-input_buffers out names in
    search (session_rules, Safe-need_buffer, rest) depth 16

Safe-parse_blocks : (text : Text) → Triple IsOrdered Safe (λ _. Safe) (parse_blocks text)
unfolding parse_blocks
Safe-parse_blocks text = search session_rules depth 16

Safe-launch :
    (d : Driver) (function blocks : ℕ) (params : List ℕ)
    → Triple IsOrdered Safe (λ _. Safe) (launch d function blocks params)
unfolding launch IsCommon role
Safe-launch d function zero params = search session_rules
Safe-launch d function (suc n) params = search session_rules depth 10

Safe-run_kernel :
    (d : Driver) (name blocks out : Text) (inputs : List Text)
    → Triple IsOrdered Safe (λ _. Safe) (run_kernel d name blocks out inputs)
unfolding run_kernel
Safe-run_kernel d name blocks out inputs =
    search
      (
        session_rules, Safe-need_kernel, Safe-parse_blocks, Safe-input_buffers, Safe-need_buffer,
        Safe-launch,
      )
      depth 20

Idle-read_buffer :
    (d : Driver) (name path : Text) → Triple IsOrdered Safe (λ _. Idle) (read_buffer d name path)
unfolding read_buffer IsCommon role
Idle-read_buffer d name path =
    search
      (session_rules, Idle-IsOrdered, Safe-need_buffer, synchronize-bind, Idle-release_host_words)
      depth 20

Safe-drop_entry : (name : Text) → Triple IsOrdered Safe (λ _. Safe) (drop_entry name)
unfolding drop_entry
Safe-drop_entry name = Keeps-edit (free_entry name) (λ calls t. Safe-any calls t _)

Safe-free_named : (d : Driver) (name : Text) → Triple IsOrdered Safe (λ _. Safe) (free_named d name)
unfolding free_named
Safe-free_named d name = search (session_rules, Safe-drop_entry) depth 16

ruleset command_rules = (
  session_rules, Safe-load, Safe-output, Safe-kernel, Safe-run_kernel, Safe-after, Idle-read_buffer,
  Safe-free_named,
)

pub Safe-run_command :
    (d : Driver) (command : Text) (words : List Text)
    → Triple IsOrdered Safe (λ _. Safe) (run_command d command words)
unfolding run_command
Safe-run_command d command (a ∷ b ∷ []) = search command_rules depth 16
Safe-run_command d command (a ∷ b ∷ c ∷ inputs) = search command_rules depth 16
Safe-run_command d command (a ∷ []) = search command_rules depth 16
Safe-run_command d command [] = search command_rules depth 16
