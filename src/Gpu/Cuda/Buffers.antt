-- ===== src/Gpu/Cuda/Buffers.antt =====
-- Files and buffer specifications of tools/cuda-host.c.
pub mod Keeps
use leanexe.Base.{
  ℕ, ◌+◌, ◌%◌, Option, none, some, List, [], ◌∷◌, ◌==◌, if◌then◌else◌, Text, starts_with, codes,
  drop, length, true, false,
}
use leanexe.Base.Run.{ok}
use leanexe.Gpu.Machine.{pure, ◌>>=◌, ◌>>◌, Report, fail}
use leanexe.Gpu.Words.{parse_words, words_of_bytes}
use leanexe.Gpu.Cuda.Driver.{Host}

unfoldable pub read_file : Text → Host Text
read_file path w = elim (w.sources path) [
  | none ↦ fail (Report.named "cannot open %s: " path) w
  | some f ↦ if w.broken path then fail (Report.named "cannot read %s" path) w else ok f.content w
]

unfoldable pub parse_file : Text → Host (List ℕ)
parse_file path = do
  bytes ← read_file path
  if length bytes % 8 == 0
      then pure (words_of_bytes bytes)
      else fail (Report.named "buffer file length is not a multiple of 8: %s" path)

unfoldable pub whole_words : Text → List ℕ → Host (List ℕ)
whole_words spec words =
    if length words % 2 == 0
    then pure words
    else fail (Report.named "buffer is not a whole number of 64-bit words: %s" spec)

-- The words behind `u32:` or `u64:`.
unfoldable pub parse_list : Text → Host (List ℕ)
parse_list spec =
    if starts_with spec (codes "u32:")
    then (do
      words ← parse_words (length spec) (Report.named "bad buffer: %s" spec) false (drop 4 spec)
      whole_words spec words)
    else if starts_with spec (codes "u64:")
    then (do
      words ← parse_words (length spec) (Report.named "bad buffer: %s" spec) true (drop 4 spec)
      whole_words spec words)
    else fail (Report.named "unknown buffer: %s" spec)

-- A buffer is not empty.
unfoldable pub at_least_two : List ℕ → List ℕ
at_least_two [] = 0 ∷ 0 ∷ []
at_least_two (x ∷ xs) = x ∷ xs

unfoldable pub parse_buffer : Text → Host (List ℕ)
parse_buffer spec = do
  words ← (if starts_with spec (codes "file:") then parse_file (drop 5 spec) else parse_list spec)
  pure (at_least_two words)
