-- ===== src/Gpu/Cuda/Queue/Run.antt =====
-- The commands `info` and `run` release only what no queued work may use.
use leanexe.Base.{ℕ, ◌≡◌, refl, List, [], ◌∷◌, inl, inr, Text, ◌++◌}
use leanexe.Gpu.Machine.Triples.{
  Triple, triple, Triple-pure, Triple-bind, Keeps-pure, Keeps-bind, keeps_rules,
}
use leanexe.Gpu.Words.Keeps.{Keeps-parse_word}
use leanexe.Gpu.Cuda.Driver.{Driver, open_device, upload}
use leanexe.Gpu.Cuda.Buffers.Keeps.{Keeps-read_file, Keeps-parse_buffer}
use leanexe.Gpu.Cuda.Queue.{role, IsOrdered}
use leanexe.Gpu.Cuda.Queue.Calls.{
  Safe, Idle, Safe-IsOrdered, IsCommon, check-common, check-frees, check-neither,
  Idle-release_host_words, synchronize-bind,
}
use leanexe.Gpu.Cuda.Run.{info, output_words, upload_all, free_all, finish_run, dispatch, run}

pub ruleset common_rules = (keeps_rules, check-common, inl, inr)

pub Safe-open_device : (d : Driver) → Triple IsOrdered Safe (λ _. Safe) (open_device d)
unfolding open_device IsCommon role
Safe-open_device d = search common_rules depth 16

Idle-open_device : (d : Driver) → Triple IsOrdered Idle (λ _. Idle) (open_device d)
unfolding open_device role
Idle-open_device d = search (keeps_rules, check-neither) depth 16

pub Idle-info : (d : Driver) → Triple IsOrdered Idle (λ _. Idle) (info d)
unfolding info role
Idle-info d = search (keeps_rules, check-neither, Idle-open_device) depth 16

Safe-output_words : (spec : Text) → Triple IsOrdered Safe (λ _. Safe) (output_words spec)
unfolding output_words
Safe-output_words spec =
    search (keeps_rules, Safe-IsOrdered, Keeps-parse_buffer, Keeps-parse_word) depth 16

Safe-upload : (d : Driver) (words : List ℕ) → Triple IsOrdered Safe (λ _. Safe) (upload d words)
unfolding upload IsCommon role
Safe-upload d words = search common_rules depth 16

Safe-upload_all :
    (d : Driver) (specs : List Text) → Triple IsOrdered Safe (λ _. Safe) (upload_all d specs)
unfolding upload_all
Safe-upload_all d [] = search keeps_rules
Safe-upload_all d (spec ∷ specs) =
    let rest = Safe-upload_all d specs in
    search (keeps_rules, Safe-IsOrdered, Keeps-parse_buffer, Safe-upload, rest) depth 16

Idle-free_all :
    (d : Driver) (buffers : List ℕ) → Triple IsOrdered Idle (λ _. Idle) (free_all d buffers)
unfolding free_all role
Idle-free_all d [] = search keeps_rules
Idle-free_all d (buffer ∷ buffers) =
    let rest = Idle-free_all d buffers in search (keeps_rules, check-frees, rest) depth 16

Idle-finish_run :
    (d : Driver) (kernel : ℕ) → Triple IsOrdered Idle (λ _. Idle) (finish_run d kernel)
unfolding finish_run role
Idle-finish_run d kernel = search (keeps_rules, check-frees, Idle-release_host_words) depth 16

Safe-dispatch :
    (d : Driver) (kernel function blocks : ℕ) (params : List ℕ) (result bytes : ℕ)
    → Triple IsOrdered Safe (λ _. Idle) (dispatch d kernel function blocks params result bytes)
unfolding dispatch IsCommon role
Safe-dispatch d kernel function blocks params result bytes =
    search (common_rules, synchronize-bind, Idle-free_all, Idle-finish_run) depth 20

pub Safe-run :
    (d : Driver) (image entry : Text) (blocks : ℕ) (out : Text) (inputs : List Text)
    → Triple IsOrdered Safe (λ _. Idle) (run d image entry blocks out inputs)
unfolding run IsCommon role
Safe-run d image entry blocks out inputs =
    search
      (
        common_rules, Safe-IsOrdered, Safe-open_device, Keeps-read_file, Safe-output_words,
        Safe-upload_all, Safe-upload, Safe-dispatch,
      )
      depth 30
