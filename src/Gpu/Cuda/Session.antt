-- ===== src/Gpu/Cuda/Session.antt =====
-- The sessions of tools/cuda-host.c: named buffers and kernels, and a command on each line.
use leanexe.Base.{
  ℕ, zero, suc, ◌+◌, ◌-◌, ◌*◌, ◌/◌, ◌%◌, ◌^◌, Bool, true, false, ◌&&◌, not, List, [], ◌∷◌, ◌++◌,
  leb, ◌==◌, if◌then◌else◌, Text, text_eq, codes, length, u64_mod,
}
use leanexe.Native.Parse.{is_empty}
use leanexe.Gpu.Table.{free_entry}
use leanexe.Gpu.Machine.{
  pure, ◌>>=◌, ◌>>◌, Report, fail, set_entries, require, hold, find_then, add_entry, write_file,
}
use leanexe.Gpu.Words.{parse_word, first_bytes}
use leanexe.Gpu.Loop.{session_loop}
use leanexe.Gpu.Cuda.Driver.{
  Call, Driver, Held, Host, check, open_device, synchronize, release_host_words,
}
use leanexe.Gpu.Cuda.Buffers.{read_file, parse_buffer}

abbrev pub nothing : Held
nothing = record { buffer = 0; bytes = 0; kernel = 0; function = 0 }

unfoldable pub new_entry : Text → Host (Unit {0})
new_entry name =
    if leb 64 (length name)
    then fail (Report.named "name too long: %s" name)
    else add_entry name nothing

unfoldable pub check_if : Bool → Driver → Call → ℕ → Host (Unit {0})
check_if false d c n = pure tt
check_if true d c n = do
  check d c (elim n [ zero ↦ "cuMemFree" | suc m ↦ "cuModuleUnload" ])
  pure tt

unfoldable pub release : Driver → Text → Held → Host (Unit {0})
release d name held = do
  synchronize d
  check_if (not (held.buffer == 0)) d (Call.mem_free held.buffer) 0
  check_if (not (held.kernel == 0)) d (Call.module_unload held.kernel) 1
  hold name nothing

-- The entry for `name`, empty: a new one, or the old one released.
unfoldable pub empty_entry : Driver → Text → Host (Unit {0})
empty_entry d name = find_then name (new_entry name) (λ held. release d name held)

unfoldable pub allocate : Driver → Text → ℕ → Host ℕ
allocate d name bytes = do
  empty_entry d name
  buffer ← check d (Call.mem_alloc bytes) "cuMemAlloc"
  hold name (record { buffer = buffer; bytes = bytes; kernel = 0; function = 0 })
  pure buffer

unfoldable pub buffer_entry : Driver → Text → ℕ → Host ℕ
buffer_entry d name bytes = find_then name (allocate d name bytes) (λ held.
    if not (held.buffer == 0) && held.bytes == bytes
    then pure held.buffer
    else allocate d name bytes)

unfoldable pub no_buffer : Text → Host Held
no_buffer name = fail (Report.named "no buffer named %s" name)

unfoldable pub need_buffer : Text → Host Held
need_buffer name =
    find_then name (no_buffer name) (λ held. if held.buffer == 0 then no_buffer name else pure held)

unfoldable pub store_words : Driver → Text → List ℕ → Host (Unit {0})
store_words d name words = do
  buffer ← buffer_entry d name (4 * length words)
  check d (Call.copy_to_device buffer words) "cuMemcpyHtoDAsync"
  synchronize d
  release_host_words

unfoldable pub load : Driver → Text → Text → Host (Unit {0})
load d name spec = do words ← parse_buffer spec; store_words d name words

unfoldable pub output : Driver → Text → Text → Host (Unit {0})
output d name size = do
  (n, end) ← parse_word size ((u64_mod - 1) / 8 - 1)
  require (is_empty end) (Report.named "bad output size: %s" size)
  buffer ← buffer_entry d name (4 * (2 * (n + 1)))
  check d (Call.memset buffer 0 (2 * (n + 1))) "cuMemsetD32Async"
  check d (Call.memset buffer (n % 2 ^ 32) 1) "cuMemsetD32Async"
  check d (Call.memset (buffer + 4) (n / 2 ^ 32) 1) "cuMemsetD32Async"
  pure tt

unfoldable pub kernel : Driver → Text → Text → Host (Unit {0})
kernel d name path = do
  image ← read_file path
  empty_entry d name
  loaded ← check d (Call.module_load image) "cuModuleLoadData"
  hold name (record { buffer = 0; bytes = 0; kernel = loaded; function = 0 })
  function ← check d (Call.module_get_function loaded (codes "main")) "cuModuleGetFunction"
  hold name (record { buffer = 0; bytes = 0; kernel = loaded; function = function })

unfoldable pub no_kernel : Text → Host ℕ
no_kernel name = fail (Report.named "no kernel named %s" name)

unfoldable pub need_kernel : Text → Host ℕ
need_kernel name =
    find_then name (no_kernel name)
      (λ held. if held.function == 0 then no_kernel name else pure held.function)

-- The buffers of the inputs; none of them may be the output `out`.
unfoldable pub input_buffers : Text → List Text → Host (List ℕ)
input_buffers out [] = pure []
input_buffers out (name ∷ names) = do
  require (not (text_eq name out)) (Report.named "the output %s is also an input" out)
  held ← need_buffer name
  buffers ← input_buffers out names
  pure (held.buffer ∷ buffers)

unfoldable pub parse_blocks : Text → Host ℕ
parse_blocks text = do
  (blocks, end) ← parse_word text (2 ^ 32 - 1)
  require (is_empty end) (Report.named "bad block count: %s" text)
  pure blocks

unfoldable pub launch : Driver → ℕ → ℕ → List ℕ → Host (Unit {0})
launch d function zero params = pure tt
launch d function (suc n) params = do
  check d (Call.launch function (suc n) params) "cuLaunchKernel"
  pure tt

unfoldable pub run_kernel : Driver → Text → Text → Text → List Text → Host (Unit {0})
run_kernel d name blocks_text out inputs = do
  function ← need_kernel name
  blocks ← parse_blocks blocks_text
  buffers ← input_buffers out inputs
  held ← need_buffer out
  launch d function blocks (buffers ++ held.buffer ∷ [])

unfoldable pub read_buffer : Driver → Text → Text → Host (Unit {0})
read_buffer d name path = do
  held ← need_buffer name
  check d (Call.copy_from_device held.buffer held.bytes) "cuMemcpyDtoHAsync"
  synchronize d
  λ w. write_file path (d.bytes w.calls held.buffer held.bytes) w
  release_host_words

-- The entry leaves the table, and the last one takes its place.
unfoldable pub drop_entry : Text → Host (Unit {0})
drop_entry name w = set_entries (free_entry name w.entries) w

unfoldable pub free_named : Driver → Text → Host (Unit {0})
free_named d name =
    find_then name (fail (Report.named "no buffer or kernel named %s" name))
      (λ held. release d name held >> drop_entry name)

-- Every command but `quit`, by its words.
unfoldable pub run_command : Driver → Text → List Text → Host (Unit {0})
run_command d command (a ∷ b ∷ []) =
    if text_eq command (codes "load")
    then load d a (first_bytes 4095 (codes "file:" ++ b))
    else if text_eq command (codes "words")
    then load d a b
    else if text_eq command (codes "output")
    then output d a b
    else if text_eq command (codes "kernel")
    then kernel d a b
    else if text_eq command (codes "read")
    then read_buffer d a b
    else fail (Report.named "bad command: %s" command)
run_command d command (a ∷ b ∷ c ∷ inputs) =
    if text_eq command (codes "run")
    then run_kernel d a b c inputs
    else fail (Report.named "bad command: %s" command)
run_command d command (a ∷ []) =
    if text_eq command (codes "free")
    then free_named d a
    else fail (Report.named "bad command: %s" command)
run_command d command [] = fail (Report.named "bad command: %s" command)

unfoldable pub session : Driver → Host (Unit {0})
session d = do
  open_device d
  check d Call.stream_create "cuStreamCreate"
  λ w. session_loop (run_command d) (length w.stdin + 1) w
  synchronize d
  pure tt
