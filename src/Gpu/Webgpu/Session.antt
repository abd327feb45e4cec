-- ===== src/Gpu/Webgpu/Session.antt =====
-- The sessions of tools/webgpu-host.c: named buffers and pipelines, and a command on each line.
use leanexe.Base.{
  ℕ, ◌+◌, ◌-◌, ◌*◌, ◌/◌, ◌%◌, ◌^◌, not, Bool, true, false, List, [], ◌∷◌, ◌++◌, leb, ◌==◌,
  if◌then◌else◌, Text, text_eq, codes, length, u64_mod,
}
use leanexe.Base.Lines.{c_string}
use leanexe.Gpu.Table.{free_entry}
use leanexe.Gpu.Machine.{
  pure, ◌>>=◌, ◌>>◌, Report, fail, set_entries, hold, find_then, add_entry, write_file,
}
use leanexe.Gpu.Words.{parse_word, first_bytes, replicate}
use leanexe.Gpu.Loop.{session_loop}
use leanexe.Gpu.Webgpu.Api.{
  Call, Usage, Object, Api, Held, Gpu, Host, call, call_or_die, make_buffer, wait_map,
}
use leanexe.Gpu.Webgpu.Buffers.{read_file, parse_input}
use leanexe.Gpu.Webgpu.Run.{encode_pass}

abbrev pub nothing : Held
nothing = record { buffer = 0; bytes = 0; pipeline = 0 }

unfoldable pub release_if : Bool → Api → Object → ℕ → Host (Unit {0})
release_if false api object handle = pure tt
release_if true api object handle = do call api (Call.release object handle); pure tt

-- A release that the code does not look back at.
unfoldable pub let_go : Api → Object → ℕ → Host (Unit {0})
let_go api object handle = do call api (Call.release object handle); pure tt

-- `new_entry` where the name is in the table, and where it is not.
unfoldable pub clear_entry : Api → Text → Held → Host (Unit {0})
clear_entry api name held = do
  release_if (not (held.buffer == 0)) api Object.a_buffer held.buffer
  release_if (not (held.pipeline == 0)) api Object.a_pipeline held.pipeline
  hold name nothing

unfoldable pub new_entry : Api → Text → Host (Unit {0})
new_entry api name =
    if leb 64 (length name)
    then fail (Report.named "name too long: %s" name)
    else find_then name (add_entry name nothing) (λ held. clear_entry api name held)

unfoldable pub no_buffer : Text → Host Held
no_buffer name = fail (Report.named "no buffer named %s" name)

unfoldable pub need_buffer : Text → Host Held
need_buffer name =
    find_then name (no_buffer name) (λ held. if held.buffer == 0 then no_buffer name else pure held)

unfoldable pub store_buffer : Api → Gpu → Text → List ℕ → Host (Unit {0})
store_buffer api gpu name words = do
  new_entry api name
  hold name (record { buffer = 0; bytes = length words * 4; pipeline = 0 })
  buffer ←
      make_buffer api gpu (Usage.storage ∷ Usage.copy_src ∷ Usage.copy_dst ∷ []) (length words * 4)
  hold name (record { buffer = buffer; bytes = length words * 4; pipeline = 0 })
  call api (Call.write_buffer gpu.queue buffer words)
  pure tt

unfoldable pub load : Api → Gpu → Text → Text → Host (Unit {0})
load api gpu name spec = do words ← parse_input spec; store_buffer api gpu name words

-- The words of an output buffer of `n` elements.
unfoldable pub empty_output : ℕ → List ℕ
empty_output n = n % 2 ^ 32 ∷ n / 2 ^ 32 ∷ replicate (2 * n) 0

unfoldable pub output : Api → Gpu → Text → Text → Host (Unit {0})
output api gpu name size = do
  (n, end) ← parse_word size ((u64_mod - 1) / 8 - 1)
  store_buffer api gpu name (empty_output n)

unfoldable pub shader : Api → Gpu → Text → Text → Host (Unit {0})
shader api gpu name path = do
  code ← read_file path
  compiled ← call api (Call.create_shader gpu.device (c_string code))
  new_entry api name
  pipeline ← call api (Call.create_pipeline gpu.device compiled (codes "main"))
  hold name (record { buffer = 0; bytes = 0; pipeline = pipeline })
  let_go api Object.a_shader compiled

unfoldable pub no_shader : Text → Host ℕ
no_shader name = fail (Report.named "no shader named %s" name)

unfoldable pub need_shader : Text → Host ℕ
need_shader name =
    find_then name (no_shader name)
      (λ held. if held.pipeline == 0 then no_shader name else pure held.pipeline)

unfoldable pub bindings : List Text → Host (List (ℕ × ℕ))
bindings [] = pure []
bindings (name ∷ names) = do
  held ← need_buffer name
  rest ← bindings names
  pure ((held.buffer, held.bytes) ∷ rest)

unfoldable pub dispatch_kernel : Api → Gpu → ℕ → ℕ → List (ℕ × ℕ) → Host (Unit {0})
dispatch_kernel api gpu pipeline workgroups entries = do
  layout ← call api (Call.get_layout pipeline)
  group ← call api (Call.create_group gpu.device layout entries)
  (encoder, pass) ← encode_pass api gpu pipeline group workgroups
  commands ← call api (Call.finish_commands encoder)
  call api (Call.submit gpu.queue commands)
  let_go api Object.a_command_buffer commands
  let_go api Object.a_pass pass
  let_go api Object.an_encoder encoder
  let_go api Object.a_group group
  let_go api Object.a_layout layout

unfoldable pub run_shader : Api → Gpu → Text → Text → Text → List Text → Host (Unit {0})
run_shader api gpu name workgroups_text out inputs = do
  pipeline ← need_shader name
  (workgroups, end) ← parse_word workgroups_text (2 ^ 32 - 1)
  entries ← bindings (inputs ++ out ∷ [])
  dispatch_kernel api gpu pipeline workgroups entries

unfoldable pub read_buffer : Api → Gpu → Text → Text → Host (Unit {0})
read_buffer api gpu name path = do
  held ← need_buffer name
  readback ← make_buffer api gpu (Usage.map_read ∷ Usage.copy_dst ∷ []) held.bytes
  encoder ← call api (Call.create_encoder gpu.device)
  call api (Call.copy_buffer encoder held.buffer readback held.bytes)
  commands ← call api (Call.finish_commands encoder)
  call api (Call.submit gpu.queue commands)
  let_go api Object.a_command_buffer commands
  let_go api Object.an_encoder encoder
  wait_map api gpu readback held.bytes
  call_or_die api (Call.mapped_range readback held.bytes) "wgpuBufferGetConstMappedRange failed"
  λ w. write_file path (api.bytes w.calls readback held.bytes) w
  call api (Call.unmap readback)
  let_go api Object.a_buffer readback

-- The entry leaves the table, and the last one takes its place.
unfoldable pub drop_entry : Text → Host (Unit {0})
drop_entry name w = set_entries (free_entry name w.entries) w

unfoldable pub free_named : Api → Text → Host (Unit {0})
free_named api name = do
  held ← need_buffer name
  let_go api Object.a_buffer held.buffer
  drop_entry name

-- Every command but `quit`, by its words.
unfoldable pub run_command : Api → Gpu → Text → List Text → Host (Unit {0})
run_command api gpu command (a ∷ b ∷ []) =
    if text_eq command (codes "load")
    then load api gpu a (first_bytes 4095 (codes "file:" ++ b))
    else if text_eq command (codes "words")
    then load api gpu a b
    else if text_eq command (codes "output")
    then output api gpu a b
    else if text_eq command (codes "shader")
    then shader api gpu a b
    else if text_eq command (codes "read")
    then read_buffer api gpu a b
    else fail (Report.named "bad command: %s" command)
run_command api gpu command (a ∷ b ∷ c ∷ inputs) =
    if text_eq command (codes "run")
    then run_shader api gpu a b c inputs
    else fail (Report.named "bad command: %s" command)
run_command api gpu command (a ∷ []) =
    if text_eq command (codes "free")
    then free_named api a
    else fail (Report.named "bad command: %s" command)
run_command api gpu command [] = fail (Report.named "bad command: %s" command)

unfoldable pub session : Api → Gpu → Host (Unit {0})
session api gpu w = session_loop (run_command api gpu) (length w.stdin + 1) w
