-- ===== src/Gpu/Webgpu/Buffers.antt =====
-- Files and input specifications of tools/webgpu-host.c.
use leanexe.Base.{
  Option, ℕ, ◌%◌, not, none, some, List, [], ◌∷◌, ◌==◌, if◌then◌else◌, Text, starts_with, codes,
  drop, length, true, false,
}
use leanexe.Native.Machine.{Source}
use leanexe.Native.Parse.{take_exactly}
use leanexe.Gpu.Machine.{pure, ◌>>=◌, Report, fail, die}
use leanexe.Gpu.Words.{parse_words, words_of_bytes}
use leanexe.Gpu.Webgpu.Api.{Host}

-- `fread` of exactly `size` bytes.
unfoldable pub whole_read : Option Text → Host Text
whole_read none = die "short read"
whole_read (some bytes) = pure bytes

-- The size that `ftell` gives, and exactly as many bytes.
unfoldable pub read_sized : Source → Option ℕ → Host Text
read_sized f none = die "ftell failed"
read_sized f (some size) = whole_read (take_exactly size f.content)

unfoldable pub read_source : Source → Host Text
read_source f = if not f.seek_end then die "fseek failed" else read_sized f f.tell

unfoldable pub read_file : Text → Host Text
read_file path w = elim (w.sources path) [
  | none ↦ fail (Report.named "cannot open %s" path) w
  | some f ↦ read_source f w
]

unfoldable pub parse_file : Text → Host (List ℕ)
parse_file path = do
  bytes ← read_file path
  if length bytes % 4 == 0
      then pure (words_of_bytes bytes)
      else fail (Report.named "input file length is not a multiple of 4: %s" path)

-- The words behind `u32:` or `u64:`.
unfoldable pub parse_list : Text → Host (List ℕ)
parse_list spec =
    if starts_with spec (codes "u32:")
    then parse_words (length spec) (Report.named "bad input: %s" spec) false (drop 4 spec)
    else if starts_with spec (codes "u64:")
    then parse_words (length spec) (Report.named "bad input: %s" spec) true (drop 4 spec)
    else fail (Report.named "unknown input: %s" spec)

-- A binding is not empty.
unfoldable pub at_least_one : List ℕ → List ℕ
at_least_one [] = 0 ∷ []
at_least_one (x ∷ xs) = x ∷ xs

unfoldable pub parse_input : Text → Host (List ℕ)
parse_input spec = do
  words ← (if starts_with spec (codes "file:") then parse_file (drop 5 spec) else parse_list spec)
  pure (at_least_one words)
