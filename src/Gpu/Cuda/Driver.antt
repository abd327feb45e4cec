-- ===== src/Gpu/Cuda/Driver.antt =====
-- The CUDA driver as tools/cuda-host.c calls it. What a call gives may depend on every call before it.
pub mod Checks
use Prim.Native.String.{String}
use leanexe.Base.{ℕ, ◌*◌, Option, none, some, List, ◌∷◌, ◌==◌, if◌then◌else◌, Text, codes, length}
use leanexe.Base.Run.{ok}
use leanexe.Gpu.Machine.{pure, ◌>>=◌, ◌>>◌, Report, World, M, fail}

-- A call of the driver, or `free_words`, the release of host memory that a queued copy may read.
-- Pointers and handles are numbers, and 0 is NULL.
pub data Call : Type 0 where
  init device_get set_current get_name get_version stream_create stream_synchronize stream_destroy :
      Call
  retain get_attribute : ℕ → Call
  mem_alloc : ℕ → Call
  copy_to_device : ℕ → List ℕ → Call
  copy_from_device : ℕ → ℕ → Call
  memset : ℕ → ℕ → ℕ → Call
  launch : ℕ → ℕ → List ℕ → Call
  mem_free : ℕ → Call
  module_load : Text → Call
  module_get_function : ℕ → Text → Call
  module_unload : ℕ → Call
  free_words : Call

-- What the driver answers, from the calls before, the latest first: the result (0 is CUDA_SUCCESS),
-- the value that is written through a pointer, the device's name, and the bytes that a copy from a
-- buffer has brought by the next synchronization.
pub record Driver : Type 0 where
  pub result : List Call → Call → ℕ
  pub value : List Call → Call → ℕ
  pub name : List Call → Text
  pub bytes : List Call → ℕ → ℕ → Text
  pub error_text : ℕ → Option Text

-- What an entry of the session's table holds.
pub record Held : Type 0 where
  pub buffer : ℕ
  pub bytes : ℕ
  pub kernel : ℕ
  pub function : ℕ

abbrev pub Host : Type 0 → Type 0
Host A = M Call Held A

abbrev pub CudaWorld : Type 0
CudaWorld = World Call Held

abbrev pub logged : Call → CudaWorld → CudaWorld
logged c w = record w { calls = c ∷ w.calls }

unfoldable pub error_message : Option Text → Text
error_message none = codes "unknown error"
error_message (some text) = text

-- `check(call, "name")`, and the value that the call writes.
unfoldable pub check : Driver → Call → String → Host ℕ
check d c name w =
    let result = d.result w.calls c in
    if result == 0
    then ok (d.value w.calls c) (logged c w)
    else fail (Report.failed name (error_message (d.error_text result))) (logged c w)

unfoldable pub release_host_words : Host (Unit {0})
release_host_words w = ok tt (logged Call.free_words w)

unfoldable pub open_device : Driver → Host ℕ
open_device d = do
  check d Call.init "cuInit"
  device ← check d Call.device_get "cuDeviceGet"
  check d (Call.retain device) "cuDevicePrimaryCtxRetain"
  check d Call.set_current "cuCtxSetCurrent"
  pure device

unfoldable pub synchronize : Driver → Host ℕ
synchronize d = check d Call.stream_synchronize "cuStreamSynchronize"

unfoldable pub upload : Driver → List ℕ → Host ℕ
upload d words = do
  buffer ← check d (Call.mem_alloc (4 * length words)) "cuMemAlloc"
  check d (Call.copy_to_device buffer words) "cuMemcpyHtoDAsync"
  pure buffer
