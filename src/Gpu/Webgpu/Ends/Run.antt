-- ===== src/Gpu/Webgpu/Ends/Run.antt =====
-- The readers, `info` and `run` of tools/webgpu-host.c end.
use leanexe.Base.{ℕ, inl, inr, Option, Option-cases, none, some, List, [], ◌∷◌, Text}
use leanexe.Native.Machine.{Source}
use leanexe.Native.Parse.{take_exactly}
use leanexe.Gpu.Machine.{die, fail}
use leanexe.Gpu.Machine.Triples.{Triple, triple, Triple-at, keeps_rules}
use leanexe.Gpu.Words.Keeps.{Keeps-parse_word, Keeps-parse_words}
use leanexe.Gpu.Cuda.Buffers.Keeps.{length-drop}
use leanexe.Gpu.Webgpu.Api.{Api, Gpu}
use leanexe.Gpu.Webgpu.Buffers.{
  whole_read, read_sized, read_source, read_file, parse_file, parse_list, parse_input,
}
use leanexe.Gpu.Webgpu.Run.{
  print_adapter, print_info, output_words, upload_all, make_pipeline, encode_pass, dispatch_all,
  run,
}
use leanexe.Gpu.Webgpu.Ends.{Anyhow, Tidy, Tidy-Anyhow, Answers, call_rules}

Keeps-whole_read : (o : Option Text) → Triple Anyhow Tidy (λ _. Tidy) (whole_read o)
unfolding whole_read die
Keeps-whole_read none = search (keeps_rules, Tidy-Anyhow)
Keeps-whole_read (some bytes) = search keeps_rules

Keeps-read_sized : (f : Source) (o : Option ℕ) → Triple Anyhow Tidy (λ _. Tidy) (read_sized f o)
unfolding read_sized die
Keeps-read_sized f none = search (keeps_rules, Tidy-Anyhow)
Keeps-read_sized f (some size) = Keeps-whole_read (take_exactly size f.content)

Keeps-read_source : (f : Source) → Triple Anyhow Tidy (λ _. Tidy) (read_source f)
unfolding read_source die
Keeps-read_source f = search (keeps_rules, Keeps-read_sized, Tidy-Anyhow)

pub Keeps-read_file : (path : Text) → Triple Anyhow Tidy (λ _. Tidy) (read_file path)
unfolding read_file fail
Keeps-read_file path = triple λ w p. elim (Option-cases (w.sources path)) [
  | inl closed ↦ simp (closed, read_file) tt
  | inr (f, opened) ↦
      simp (opened, read_file)
        (Triple-at Anyhow Tidy (λ _. Tidy) (read_source f) (Keeps-read_source f) w p)
]

Keeps-parse_file : (path : Text) → Triple Anyhow Tidy (λ _. Tidy) (parse_file path)
unfolding parse_file
Keeps-parse_file path = search (keeps_rules, Keeps-read_file, Tidy-Anyhow)

Keeps-parse_list : (spec : Text) → Triple Anyhow Tidy (λ _. Tidy) (parse_list spec)
unfolding parse_list
Keeps-parse_list spec = search (keeps_rules, Keeps-parse_words, length-drop, Tidy-Anyhow)

pub Keeps-parse_input : (spec : Text) → Triple Anyhow Tidy (λ _. Tidy) (parse_input spec)
unfolding parse_input
Keeps-parse_input spec = search (keeps_rules, Keeps-parse_file, Keeps-parse_list)

module _ (api : Api) where
  pub Keeps-print_info : (gpu : Gpu) → Triple Anyhow Tidy (λ _. Tidy) (print_info api gpu)
  unfolding print_info print_adapter
  Keeps-print_info gpu = search call_rules depth 8

  Keeps-output_words : (spec : Text) → Triple Anyhow Tidy (λ _. Tidy) (output_words spec)
  unfolding output_words die
  Keeps-output_words spec = search (call_rules, Keeps-parse_input, Keeps-parse_word) depth 12

  Keeps-upload_all :
      (gpu : Gpu) (specs : List Text) → Triple Anyhow Tidy (λ _. Tidy) (upload_all api gpu specs)
  unfolding upload_all
  Keeps-upload_all gpu [] = search keeps_rules
  Keeps-upload_all gpu (spec ∷ specs) =
      let rest = Keeps-upload_all gpu specs in search (call_rules, Keeps-parse_input, rest) depth 12

  Keeps-make_pipeline :
      (gpu : Gpu) (code entry : Text)
      → Triple Anyhow Tidy (λ _. Tidy) (make_pipeline api gpu code entry)
  unfolding make_pipeline
  Keeps-make_pipeline gpu code entry = search call_rules depth 8

  pub Keeps-encode_pass :
      (gpu : Gpu) (pipeline group workgroups : ℕ)
      → Triple Anyhow Tidy (λ _. Tidy) (encode_pass api gpu pipeline group workgroups)
  unfolding encode_pass
  Keeps-encode_pass gpu pipeline group workgroups = search call_rules depth 20

  Keeps-dispatch_all :
      (gpu : Gpu) (pipeline workgroups : ℕ) (entries : List (ℕ × ℕ)) (output readback bytes : ℕ)
      → Triple Anyhow Tidy
          (λ _. Tidy)
          (dispatch_all api gpu pipeline workgroups entries output readback bytes)
  unfolding dispatch_all
  Keeps-dispatch_all gpu pipeline workgroups entries output readback bytes =
      search (call_rules, Keeps-encode_pass) depth 20

  pub Keeps-run :
      (answers : Answers api) (gpu : Gpu) (shader entry : Text) (workgroups : ℕ) (out : Text)
      (inputs : List Text)
      → Triple Anyhow Tidy (λ _. Tidy) (run api gpu shader entry workgroups out inputs)
  unfolding run
  Keeps-run answers gpu shader entry workgroups out inputs =
      search
        (
          call_rules, Keeps-output_words, Keeps-read_file, Keeps-make_pipeline, Keeps-upload_all,
          Keeps-dispatch_all,
        )
        depth 30
