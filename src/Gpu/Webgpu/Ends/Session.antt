-- ===== src/Gpu/Webgpu/Ends/Session.antt =====
-- The commands of a session of tools/webgpu-host.c end.
use leanexe.Base.{ℕ, ◌≡◌, Bool, true, false, leb, none, List, [], ◌∷◌, Text, length, arith, ◌==◌}
use leanexe.Gpu.Table.{Table, max_entries, find_entry, set_entry, append_entry, free_entry}
use leanexe.Gpu.Table.Tidy.{set-IsTidy, append-IsTidy, free-IsTidy}
use leanexe.Gpu.Machine.Triples.{
  Triple, Triple-from, Triple-test, Triple-fail, Triple-find_entry, Triple-add_entry_to, Keeps-edit,
  keeps_rules,
}
use leanexe.Gpu.Words.Keeps.{Keeps-parse_word}
use leanexe.Gpu.Webgpu.Api.{Call, Object, Api, Held, Gpu}
use leanexe.Gpu.Webgpu.Ends.{Anyhow, Tidy, Tidy-Anyhow, Answers, call_rules}
use leanexe.Gpu.Webgpu.Ends.Run.{Keeps-read_file, Keeps-parse_input, Keeps-encode_pass}
use leanexe.Gpu.Webgpu.Session.{
  nothing, release_if, let_go, clear_entry, new_entry, no_buffer, need_buffer, store_buffer, load,
  output, shader, no_shader, need_shader, bindings, dispatch_kernel, run_shader, read_buffer,
  drop_entry, free_named, run_command,
}

set-Tidy :
    (name : Text) (held : Held) (calls : List Call) (t : Table Held)
    → Tidy calls t
    → Tidy calls (set_entry name held t)
unfolding Tidy
set-Tidy name held calls t h = set-IsTidy name held t h

module _ (api : Api) where
  Keeps-release_if :
      (b : Bool) (object : Object) (handle : ℕ)
      → Triple Anyhow Tidy (λ _. Tidy) (release_if b api object handle)
  unfolding release_if
  Keeps-release_if true object handle = search call_rules
  Keeps-release_if false object handle = search call_rules

  Keeps-let_go :
      (object : Object) (handle : ℕ) → Triple Anyhow Tidy (λ _. Tidy) (let_go api object handle)
  unfolding let_go
  Keeps-let_go object handle = search call_rules

  Keeps-clear_entry :
      (name : Text) (held : Held) → Triple Anyhow Tidy (λ _. Tidy) (clear_entry api name held)
  unfolding clear_entry
  Keeps-clear_entry name held = search (call_rules, Keeps-release_if, set-Tidy) depth 8

  appended :
      (name : Text)
      → leb 64 (length name) ≡ false
      → (calls : List Call) (t : Table Held) → Tidy calls t × (find_entry name t ≡ none)
      → (length t == max_entries) ≡ false
      → Tidy calls (append_entry name nothing t)
  unfolding Tidy
  appended name fits calls t (tidy, missing) room =
      append-IsTidy name nothing t missing room (ground (arith, fits)) tidy

  Keeps-new_entry : (name : Text) → Triple Anyhow Tidy (λ _. Tidy) (new_entry api name)
  unfolding new_entry
  Keeps-new_entry name =
      Triple-test _ _ _ _ (λ long. Triple-fail _ _ Tidy-Anyhow)
        (λ fits.
          Triple-find_entry _ name _ _
            (Triple-add_entry_to (λ _. Tidy) name nothing (λ calls t h. tt) (appended name fits))
            (λ held. Triple-from Tidy _ _ (λ calls t (h, found). h) (Keeps-clear_entry name held)))

  Keeps-need_buffer : (name : Text) → Triple Anyhow Tidy (λ _. Tidy) (need_buffer name)
  unfolding need_buffer no_buffer
  Keeps-need_buffer name = search call_rules depth 8

  Keeps-store_buffer :
      (gpu : Gpu) (name : Text) (words : List ℕ)
      → Triple Anyhow Tidy (λ _. Tidy) (store_buffer api gpu name words)
  unfolding store_buffer
  Keeps-store_buffer gpu name words = search (call_rules, Keeps-new_entry, set-Tidy) depth 16

  Keeps-load :
      (gpu : Gpu) (name spec : Text) → Triple Anyhow Tidy (λ _. Tidy) (load api gpu name spec)
  unfolding load
  Keeps-load gpu name spec = search (call_rules, Keeps-parse_input, Keeps-store_buffer) depth 8

  Keeps-output :
      (gpu : Gpu) (name size : Text) → Triple Anyhow Tidy (λ _. Tidy) (output api gpu name size)
  unfolding output
  Keeps-output gpu name size = search (call_rules, Keeps-parse_word, Keeps-store_buffer) depth 8

  Keeps-shader :
      (gpu : Gpu) (name path : Text) → Triple Anyhow Tidy (λ _. Tidy) (shader api gpu name path)
  unfolding shader
  Keeps-shader gpu name path =
      search (call_rules, Keeps-read_file, Keeps-new_entry, set-Tidy, Keeps-let_go) depth 16

  Keeps-need_shader : (name : Text) → Triple Anyhow Tidy (λ _. Tidy) (need_shader name)
  unfolding need_shader no_shader
  Keeps-need_shader name = search call_rules depth 8

  Keeps-bindings : (names : List Text) → Triple Anyhow Tidy (λ _. Tidy) (bindings names)
  unfolding bindings
  Keeps-bindings [] = search keeps_rules
  Keeps-bindings (name ∷ names) =
      let rest = Keeps-bindings names in search (call_rules, Keeps-need_buffer, rest) depth 8

  Keeps-dispatch_kernel :
      (gpu : Gpu) (pipeline workgroups : ℕ) (entries : List (ℕ × ℕ))
      → Triple Anyhow Tidy (λ _. Tidy) (dispatch_kernel api gpu pipeline workgroups entries)
  unfolding dispatch_kernel
  Keeps-dispatch_kernel gpu pipeline workgroups entries =
      search (call_rules, Keeps-encode_pass, Keeps-let_go) depth 24

  Keeps-run_shader :
      (gpu : Gpu) (name workgroups out : Text) (inputs : List Text)
      → Triple Anyhow Tidy (λ _. Tidy) (run_shader api gpu name workgroups out inputs)
  unfolding run_shader
  Keeps-run_shader gpu name workgroups out inputs =
      search
        (call_rules, Keeps-need_shader, Keeps-parse_word, Keeps-bindings, Keeps-dispatch_kernel)
        depth 16

  Keeps-read_buffer :
      (answers : Answers api) (gpu : Gpu) (name path : Text)
      → Triple Anyhow Tidy (λ _. Tidy) (read_buffer api gpu name path)
  unfolding read_buffer
  Keeps-read_buffer answers gpu name path =
      search (call_rules, Keeps-need_buffer, Keeps-let_go) depth 30

  drop-Tidy :
      (name : Text) (calls : List Call) (t : Table Held)
      → Tidy calls t
      → Tidy calls (free_entry name t)
  unfolding Tidy
  drop-Tidy name calls t h = free-IsTidy name t h

  Keeps-drop_entry : (name : Text) → Triple Anyhow Tidy (λ _. Tidy) (drop_entry name)
  unfolding drop_entry
  Keeps-drop_entry name = Keeps-edit (free_entry name) (drop-Tidy name)

  Keeps-free_named : (name : Text) → Triple Anyhow Tidy (λ _. Tidy) (free_named api name)
  unfolding free_named
  Keeps-free_named name =
      search (call_rules, Keeps-need_buffer, Keeps-let_go, Keeps-drop_entry) depth 10

  ruleset command_rules = (
    call_rules, Keeps-load, Keeps-output, Keeps-shader, Keeps-run_shader, Keeps-read_buffer,
    Keeps-free_named,
  )

  pub Keeps-run_command :
      (answers : Answers api) (gpu : Gpu) (command : Text) (words : List Text)
      → Triple Anyhow Tidy (λ _. Tidy) (run_command api gpu command words)
  unfolding run_command
  Keeps-run_command answers gpu command (a ∷ b ∷ []) = search command_rules depth 12
  Keeps-run_command answers gpu command (a ∷ b ∷ c ∷ inputs) = search command_rules depth 12
  Keeps-run_command answers gpu command (a ∷ []) = search command_rules depth 12
  Keeps-run_command answers gpu command [] = search command_rules depth 12
