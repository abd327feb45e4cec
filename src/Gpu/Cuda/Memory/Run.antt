-- ===== src/Gpu/Cuda/Memory/Run.antt =====
-- The commands `info` and `run` use blocks only.
use leanexe.Base.{
  ℕ, ◌*◌, ◌≡◌, refl, ap, sym, true, none, some, List, [], ◌∷◌, ◌++◌, if◌then◌else◌, arith, Text,
  length, append_assoc, append-nil,
}
use mathlib.Core.Path.{subst}
use leanexe.Gpu.Table.{Table}
use leanexe.Gpu.Machine.Triples.{
  Triple, Triple-bind, Triple-weaken, Triple-from, Keeps-bind, Keeps-pure, Triple-pure,
  Keeps-print_from, keeps_rules,
}
use leanexe.Gpu.Words.Keeps.{Keeps-parse_word}
use leanexe.Gpu.Cuda.Buffers.Keeps.{Keeps-read_file, Keeps-parse_buffer}
use leanexe.Gpu.Cuda.Driver.{Call, Driver, Held, open_device, synchronize, upload}
use leanexe.Gpu.Cuda.Memory.{
  Blocks, find_block, is_block, drop_block, memory_step, IsInside, Allocates, guard,
}
use leanexe.Gpu.Cuda.Memory.Owns.{IsUnheld}
use leanexe.Gpu.Cuda.Memory.Calls.{
  With, Any, With-IsInside, With-weaken, check-keeps, Triple-alloc_to, Triple-free,
  Keeps-release_host_words,
}
use leanexe.Gpu.Cuda.Memory.Session.{forget, whole_block}
use leanexe.Gpu.Cuda.Memory.Uploads.{
  Uploaded, Uploaded-one_more, Uploaded-drop, Uploaded-all_blocks,
}
use leanexe.Gpu.Cuda.Run.{info, output_words, upload_all, free_all, finish_run, dispatch, run}

module _ (d : Driver) where
  pub Triple-open_device :
      (F : Blocks → Table Held → Type 0)
      → Triple (IsInside d) (With d F) (λ _. With d F) (open_device d)
  unfolding open_device memory_step
  Triple-open_device F = Keeps-bind _ _ _ (check-keeps d F _ _ (λ bs t r v f. refl)) λ started.
      Keeps-bind _ _ _ (check-keeps d F _ _ (λ bs t r v f. refl)) λ device.
        Keeps-bind _ _ _ (check-keeps d F _ _ (λ bs t r v f. refl)) λ context.
          Keeps-bind _ _ _ (check-keeps d F _ _ (λ bs t r v f. refl)) λ set. Keeps-pure device

  pub Triple-info : Triple (IsInside d) (With d Any) (λ _. With d Any) (info d)
  unfolding info memory_step
  Triple-info = Keeps-bind _ _ _ (Triple-open_device Any) λ device.
      Keeps-bind _ _ _ (check-keeps d Any _ _ (λ bs t r v f. refl)) λ name.
        Keeps-bind _ _ _ (check-keeps d Any _ _ (λ bs t r v f. refl)) λ major.
          Keeps-bind _ _ _ (check-keeps d Any _ _ (λ bs t r v f. refl)) λ minor.
            Keeps-bind _ _ _ (check-keeps d Any _ _ (λ bs t r v f. refl))
              λ version. Keeps-print_from _

release_first :
    (p : ℕ) (ps : List ℕ) (bs : Blocks) (t : Table Held)
    → Uploaded (p ∷ ps) bs t
    → (is_block (find_block p bs) ≡ true) × (IsUnheld p t × Uploaded ps (drop_block p bs) t)
unfolding Uploaded is_block
release_first p ps bs t ((n, e), (unheld, (apart, u))) =
    (ap is_block e, (unheld, Uploaded-drop p ps bs t apart u))

module _ (d : Driver) (allocates : Allocates d) where
  -- The last block is one of the run's, and of the size given.
  Last : List ℕ → ℕ → ℕ → Blocks → Table Held → Type 0
  Last ps p n bs t = Uploaded (ps ++ p ∷ []) bs t × (find_block p bs ≡ some n)

  Triple-upload :
      (ps : List ℕ) (words : List ℕ)
      → Triple
          (IsInside d)
          (With d (Uploaded ps))
          (λ p. With d (Last ps p (4 * length words)))
          (upload d words)
  unfolding upload memory_step find_block Last
  Triple-upload ps words =
      Triple-bind (λ p. With d (Last ps p (4 * length words))) _ _ _
        (Triple-alloc_to d allocates (Uploaded ps) (λ p. Last ps p (4 * length words))
          (4 * length words) _
          (λ p bs t fresh unheld u.
            (Uploaded-one_more ps p (4 * length words) bs t fresh unheld u, ground arith)))
        λ p.
          Keeps-bind _ _ _
            (check-keeps d (Last ps p (4 * length words)) _ _
              (λ bs t r v (u, h). whole_block d allocates p (4 * length words) bs h))
            λ queued. Triple-pure (λ q. With d (Last ps q (4 * length words))) p (λ calls t w. w)

  Triple-upload_all :
      (ps : List ℕ) (specs : List Text)
      → Triple
          (IsInside d)
          (With d (Uploaded ps))
          (λ qs. With d (Uploaded (ps ++ qs)))
          (upload_all d specs)
  unfolding upload_all Last
  Triple-upload_all ps [] =
      Triple-pure (λ qs. With d (Uploaded (ps ++ qs))) []
        (λ calls t w. subst (λ l. With d (Uploaded l) calls t) (sym (append-nil ps)) w)
  Triple-upload_all ps (spec ∷ specs) =
      Keeps-bind _ _ _ (Keeps-parse_buffer spec (With-IsInside d (Uploaded ps))) λ words.
        Triple-bind (λ p. With d (Uploaded (ps ++ p ∷ []))) _ _ _
          (Triple-weaken (λ p. With d (Last ps p (4 * length words))) _ _
            (λ p.
              With-weaken d (Last ps p (4 * length words)) (Uploaded (ps ++ p ∷ []))
                (λ bs t o (u, h). u))
            (Triple-upload ps words))
          λ p.
            Triple-bind (λ qs. With d (Uploaded ((ps ++ p ∷ []) ++ qs))) _ _ _
              (Triple-upload_all (ps ++ p ∷ []) specs)
              λ qs.
                Triple-pure (λ l. With d (Uploaded (ps ++ l))) (p ∷ qs)
                  (λ calls t w.
                    subst (λ l. With d (Uploaded l) calls t) (append_assoc ps (p ∷ []) qs) w)

  Triple-free_all :
      (ps : List ℕ) → Triple (IsInside d) (With d (Uploaded ps)) (λ _. With d Any) (free_all d ps)
  unfolding free_all
  Triple-free_all [] = Triple-pure _ tt (forget d allocates (Uploaded []))
  Triple-free_all (p ∷ ps) =
      Triple-bind (λ _. With d (Uploaded ps)) _ _ _
        (Triple-free d allocates (Uploaded (p ∷ ps)) (Uploaded ps) p _ (release_first p ps))
        λ freed. Triple-free_all ps

  Triple-finish_run :
      (kernel : ℕ) → Triple (IsInside d) (With d Any) (λ _. With d Any) (finish_run d kernel)
  unfolding finish_run memory_step
  Triple-finish_run kernel = Keeps-bind _ _ _ (Keeps-release_host_words d Any) λ first.
      Keeps-bind _ _ _ (check-keeps d Any _ _ (λ bs t r v f. refl)) λ destroyed.
        Keeps-bind _ _ _ (check-keeps d Any _ _ (λ bs t r v f. refl))
          λ unloaded. Keeps-release_host_words d Any

  Triple-output_words :
      (spec : Text) → Triple (IsInside d) (With d Any) (λ _. With d Any) (output_words spec)
  unfolding output_words
  Triple-output_words spec =
      search (keeps_rules, With-IsInside, Keeps-parse_buffer, Keeps-parse_word) depth 16

  -- The launch, the copy back, and the release of everything.
  Triple-dispatch :
      (kernel function blocks : ℕ) (ps : List ℕ) (p : ℕ) (words : List ℕ)
      → Triple
          (IsInside d)
          (With d (Last ps p (4 * length words)))
          (λ _. With d Any)
          (dispatch d kernel function blocks (ps ++ p ∷ []) p (4 * length words))
  unfolding dispatch synchronize memory_step guard Last
  Triple-dispatch kernel function blocks ps p words =
      Keeps-bind _ _ _
        (check-keeps d (Last ps p (4 * length words)) _ _ (λ bs t r v (u, h).
          ap (λ b. if b then some bs else none) (Uploaded-all_blocks (ps ++ p ∷ []) bs t u)))
        λ launched.
          Keeps-bind _ _ _
            (check-keeps d (Last ps p (4 * length words)) _ _
              (λ bs t r v (u, h). whole_block d allocates p (4 * length words) bs h))
            λ copied.
              Keeps-bind _ _ _
                (check-keeps d (Last ps p (4 * length words)) Call.stream_synchronize _
                  (λ bs t r v h. refl))
                λ done. Keeps-bind _ _ _ (Keeps-print_from _) λ printed.
                  Triple-bind (λ _. With d Any) _ _ _
                    (Triple-from (With d (Uploaded (ps ++ p ∷ []))) _ _
                      (With-weaken d (Last ps p (4 * length words)) (Uploaded (ps ++ p ∷ []))
                        (λ bs t o (u, h). u))
                      (Triple-free_all (ps ++ p ∷ [])))
                    λ freed. Triple-finish_run kernel

  pub Triple-run :
      (image entry : Text) (blocks : ℕ) (out : Text) (inputs : List Text)
      → Triple (IsInside d) (With d Any) (λ _. With d Any) (run d image entry blocks out inputs)
  unfolding run memory_step Uploaded
  Triple-run image entry blocks out inputs = Keeps-bind _ _ _ (Triple-open_device d Any) λ device.
      Keeps-bind _ _ _ (Keeps-read_file image (With-IsInside d Any)) λ bytes.
        Keeps-bind _ _ _ (check-keeps d Any _ _ (λ bs t r v f. refl)) λ kernel.
          Keeps-bind _ _ _ (check-keeps d Any _ _ (λ bs t r v f. refl)) λ function.
            Keeps-bind _ _ _ (Triple-output_words out) λ words.
              Keeps-bind _ _ _ (check-keeps d Any _ _ (λ bs t r v f. refl)) λ stream.
                Triple-bind (λ ps. With d (Uploaded ps)) _ _ _ (Triple-upload_all [] inputs)
                  λ ps.
                    Triple-bind (λ p. With d (Last ps p (4 * length words))) _ _ _
                      (Triple-upload ps words)
                      λ p. Triple-dispatch kernel function blocks ps p words
