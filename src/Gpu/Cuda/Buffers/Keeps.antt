-- ===== src/Gpu/Cuda/Buffers/Keeps.antt =====
-- The readers of files and of buffer specifications keep what holds of the calls and the table.
use leanexe.Base.{
  ℕ, zero, suc, inl, inr, refl, ◌≤◌, Bool-cases, Option-cases, List, [], ◌∷◌, Text, length, drop,
  arith,
}
use leanexe.Gpu.Table.{Table}
use leanexe.Gpu.Machine.{fail}
use leanexe.Gpu.Machine.Triples.{Triple, triple, keeps_rules}
use leanexe.Gpu.Words.Keeps.{Keeps-parse_words}
use leanexe.Gpu.Cuda.Driver.{Call, Held}
use leanexe.Gpu.Cuda.Buffers.{read_file, parse_file, whole_words, parse_list, parse_buffer}

pub length-drop : {A : Type 0} (n : ℕ) (s : List A) → length (drop n s) ≤ length s
length-drop zero s = omega arith
length-drop (suc n) [] = omega arith
length-drop (suc n) (c ∷ s) = omega (arith, length-drop n s)

module _ {X : List Call → Type 0} {P : List Call → Table Held → Type 0} where
  pub Keeps-read_file :
      (path : Text)
      → ((calls : List Call) (t : Table Held) → P calls t → X calls)
      → Triple X P (λ _. P) (read_file path)
  unfolding read_file fail
  Keeps-read_file path px = triple λ w p. elim (Option-cases (w.sources path)) [
    | inl closed ↦ simp (closed, read_file) (px w.calls w.entries p)
    | inr (f, opened) ↦ elim (Bool-cases (w.broken path)) [
      | inl breaks ↦ simp (opened, breaks, read_file) (px w.calls w.entries p)
      | inr reads ↦ simp (opened, reads, read_file) (p, refl)
    ]
  ]

  Keeps-parse_file :
      (path : Text)
      → ((calls : List Call) (t : Table Held) → P calls t → X calls)
      → Triple X P (λ _. P) (parse_file path)
  unfolding parse_file
  Keeps-parse_file path px = search (keeps_rules, Keeps-read_file)

  Keeps-whole_words :
      (spec : Text) (words : List ℕ)
      → ((calls : List Call) (t : Table Held) → P calls t → X calls)
      → Triple X P (λ _. P) (whole_words spec words)
  unfolding whole_words
  Keeps-whole_words spec words px = search keeps_rules

  Keeps-parse_list :
      (spec : Text)
      → ((calls : List Call) (t : Table Held) → P calls t → X calls)
      → Triple X P (λ _. P) (parse_list spec)
  unfolding parse_list
  Keeps-parse_list spec px = search (keeps_rules, Keeps-parse_words, Keeps-whole_words, length-drop)

  pub Keeps-parse_buffer :
      (spec : Text)
      → ((calls : List Call) (t : Table Held) → P calls t → X calls)
      → Triple X P (λ _. P) (parse_buffer spec)
  unfolding parse_buffer
  Keeps-parse_buffer spec px = search (keeps_rules, Keeps-parse_file, Keeps-parse_list)
