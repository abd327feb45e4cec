-- ===== src/Gpu/Cuda/Run.antt =====
-- The commands `info` and `run` of tools/cuda-host.c.
use leanexe.Base.{
  ℕ, ◌-◌, ◌*◌, ◌/◌, ◌%◌, ◌&&◌, not, List, [], ◌∷◌, ◌++◌, ◌==◌, if◌then◌else◌, Text, codes, length,
  u64_mod,
}
use leanexe.Base.Decimal.{decimal}
use leanexe.Native.Parse.{is_empty}
use leanexe.Gpu.Machine.{pure, ◌>>=◌, ◌>>◌, Report, print, require}
use leanexe.Gpu.Words.{fill_word, has_colon, parse_word, words_of_bytes, comma_words, replicate}
use leanexe.Gpu.Cuda.Driver.{
  Call, Driver, Host, check, open_device, synchronize, upload, release_host_words,
}
use leanexe.Gpu.Cuda.Buffers.{read_file, parse_buffer}

unfoldable pub info : Driver → Host (Unit {0})
info d = do
  device ← open_device d
  check d Call.get_name "cuDeviceGetName"
  major ← check d (Call.get_attribute 75) "cuDeviceGetAttribute"
  minor ← check d (Call.get_attribute 76) "cuDeviceGetAttribute"
  version ← check d Call.get_version "cuDriverGetVersion"
  λ w.
      print
        (codes "device "
          ++ (d.name w.calls
              ++ (codes "\ncompute capability "
                  ++ (decimal major
                      ++ (codes "."
                          ++ (decimal minor
                              ++ (codes "\ndriver " ++ (decimal version ++ codes "\n"))))))))
        w

-- The output's initial words.
unfoldable pub output_words : Text → Host (List ℕ)
output_words spec = if has_colon spec then parse_buffer spec else (do
  (count, end) ← parse_word spec ((u64_mod - 1) / 8)
  require (is_empty end && (not (count == 0) && count % 2 == 0))
      (Report.named "bad output size: %s" spec)
  pure (replicate count fill_word))

unfoldable pub upload_all : Driver → List Text → Host (List ℕ)
upload_all d [] = pure []
upload_all d (spec ∷ specs) = do
  words ← parse_buffer spec
  buffer ← upload d words
  buffers ← upload_all d specs
  pure (buffer ∷ buffers)

unfoldable pub free_all : Driver → List ℕ → Host (Unit {0})
free_all d [] = pure tt
free_all d (buffer ∷ buffers) = do check d (Call.mem_free buffer) "cuMemFree"; free_all d buffers

-- The release of what is left, behind the last `cuMemFree`.
unfoldable pub finish_run : Driver → ℕ → Host (Unit {0})
finish_run d kernel = do
  release_host_words
  check d Call.stream_destroy "cuStreamDestroy"
  check d (Call.module_unload kernel) "cuModuleUnload"
  release_host_words

-- The launch, the copy back of `bytes` bytes, the print, and the release of everything.
unfoldable pub dispatch : Driver → ℕ → ℕ → ℕ → List ℕ → ℕ → ℕ → Host (Unit {0})
dispatch d kernel function blocks params result bytes = do
  check d (Call.launch function blocks params) "cuLaunchKernel"
  check d (Call.copy_from_device result bytes) "cuMemcpyDtoHAsync"
  synchronize d
  λ w. print (comma_words (words_of_bytes (d.bytes w.calls result bytes)) ++ codes "\n") w
  free_all d params
  finish_run d kernel

unfoldable pub run : Driver → Text → Text → ℕ → Text → List Text → Host (Unit {0})
run d image_path entry blocks output_spec inputs = do
  open_device d
  image ← read_file image_path
  kernel ← check d (Call.module_load image) "cuModuleLoadData"
  function ← check d (Call.module_get_function kernel entry) "cuModuleGetFunction"
  output ← output_words output_spec
  check d Call.stream_create "cuStreamCreate"
  buffers ← upload_all d inputs
  result ← upload d output
  dispatch d kernel function blocks (buffers ++ result ∷ []) result (4 * length output)
