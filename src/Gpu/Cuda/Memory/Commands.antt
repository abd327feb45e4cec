-- ===== src/Gpu/Cuda/Memory/Commands.antt =====
-- Every command of a session uses blocks only, and the table owns blocks after it.
use leanexe.Base.{
  ℕ, ◌+◌, ◌*◌, ◌≡◌, ◌≤◌, refl, ap, ◌∙◌, inl, none, some, List, if◌then◌else◌, arith, Text,
}
use leanexe.Gpu.Table.{Table, find_entry, set_entry}
use leanexe.Gpu.Table.Map.{text_eq_refl, find-set}
use leanexe.Gpu.Machine.Triples.{
  Triple, Triple-bind, Triple-weaken, Triple-hold_to, Keeps-bind, Triple-pure, keeps_rules,
}
use leanexe.Gpu.Words.Keeps.{Keeps-parse_word}
use leanexe.Gpu.Cuda.Buffers.Keeps.{Keeps-read_file, Keeps-parse_buffer}
use leanexe.Gpu.Cuda.Driver.{Call, Driver, Held}
use leanexe.Gpu.Cuda.Memory.{Blocks, find_block, memory_step, IsInside, Allocates, guard, covers}
use leanexe.Gpu.Cuda.Memory.Blocks.{covers-block}
use leanexe.Gpu.Cuda.Memory.Owns.{empty, Owns-set}
use leanexe.Gpu.Cuda.Memory.Calls.{With, Any, Block, With-IsInside, With-weaken, check-keeps}
use leanexe.Gpu.Cuda.Memory.Release.{Emptied, Triple-empty_entry}
use leanexe.Gpu.Cuda.Memory.Session.{Triple-buffer_entry, Triple-store_words, forget, whole_block}
use leanexe.Gpu.Cuda.Session.{nothing, load, output, kernel, no_kernel, need_kernel, parse_blocks}

module _ (d : Driver) (allocates : Allocates d) where
  pub Triple-load :
      (name spec : Text) → Triple (IsInside d) (With d Any) (λ _. With d Any) (load d name spec)
  unfolding load
  Triple-load name spec =
      Keeps-bind _ _ _ (Keeps-parse_buffer spec (With-IsInside d Any))
        λ words. Triple-store_words d allocates name words

  -- A part of a block.
  part_block :
      (p q m n : ℕ) (bs : Blocks)
      → find_block p bs ≡ some n
      → p ≤ q
      → q + m ≤ p + n
      → guard (covers q m bs) bs ≡ some bs
  unfolding guard
  part_block p q m n bs h a b =
      ap (λ b. if b then some bs else none) (covers-block q m p n bs h a b)

  pub Triple-output :
      (name size : Text) → Triple (IsInside d) (With d Any) (λ _. With d Any) (output d name size)
  unfolding output memory_step
  Triple-output name size =
      Keeps-bind _ _ _ (Keeps-parse_word size _ (With-IsInside d Any)) λ (n, end).
        Keeps-bind _ _ _ (search (keeps_rules, With-IsInside)) λ whole.
          Triple-bind _ _ _ _ (Triple-buffer_entry d allocates Any name (4 * (2 * (n + 1)))) λ p.
            Keeps-bind _ _ _
              (check-keeps d (Block p (4 * (2 * (n + 1)))) _ _
                (λ bs t r v h. whole_block d allocates p (4 * (2 * (n + 1))) bs h))
              λ filled.
                Keeps-bind _ _ _
                  (check-keeps d (Block p (4 * (2 * (n + 1)))) _ _ (λ bs t r v h.
                    part_block p p 4 (4 * (2 * (n + 1))) bs h (omega arith) (omega arith)))
                  λ low.
                    Keeps-bind _ _ _
                      (check-keeps d (Block p (4 * (2 * (n + 1)))) _ _ (λ bs t r v h.
                        part_block p (p + 4) 4 (4 * (2 * (n + 1))) bs h (omega arith)
                          (omega arith)))
                      λ high. Triple-pure _ tt (forget d allocates (Block p (4 * (2 * (n + 1)))))

  Present : Text → Blocks → Table Held → Type 0
  Present name bs t = (old : Held) × (find_entry name t ≡ some old)

  Emptied-Present :
      (name : Text) (calls : List Call) (t : Table Held)
      → With d (Emptied name) calls t
      → With d (Present name) calls t
  unfolding Present
  Emptied-Present name = With-weaken d (Emptied name) (Present name) (λ bs t o e. (nothing, e))

  bufferless :
      (name : Text) (held : Held)
      → held.buffer ≡ 0
      → (calls : List Call) (t : Table Held) → With d (Present name) calls t
      → With d (Present name) calls (set_entry name held t)
  unfolding With Present
  bufferless name held h calls t (bs, (e, (o, (old, found)))) = (
    bs,
    (
      e,
      (
        Owns-set name held old bs t found (empty h) (inl h) o,
        (
          held,
          find-set name name held old t found
              ∙ ap (λ b. if b then some held else find_entry name t) (text_eq_refl name),
        ),
      ),
    ),
  )

  pub Triple-kernel :
      (name path : Text) → Triple (IsInside d) (With d Any) (λ _. With d Any) (kernel d name path)
  unfolding kernel memory_step
  Triple-kernel name path = Keeps-bind _ _ _ (Keeps-read_file path (With-IsInside d Any)) λ image.
      Triple-bind (λ _. With d (Present name)) _ _ _
        (Triple-weaken _ _ _ (λ a. Emptied-Present name) (Triple-empty_entry d name Any))
        λ done. Keeps-bind _ _ _ (check-keeps d (Present name) _ _ (λ bs t r v h. refl)) λ loaded.
          Keeps-bind _ _ _ (Triple-hold_to _ name _ (bufferless name _ refl)) λ held.
            Keeps-bind _ _ _ (check-keeps d (Present name) _ _ (λ bs t r v h. refl)) λ function.
              Triple-weaken (λ _. With d (Present name)) _ _
                (λ a. forget d allocates (Present name))
                (Triple-hold_to _ name _ (bufferless name _ refl))

  pub Triple-need_kernel :
      (name : Text) → Triple (IsInside d) (With d Any) (λ _. With d Any) (need_kernel name)
  unfolding need_kernel no_kernel
  Triple-need_kernel name = search (keeps_rules, With-IsInside) depth 10

  pub Triple-parse_blocks :
      (text : Text) → Triple (IsInside d) (With d Any) (λ _. With d Any) (parse_blocks text)
  unfolding parse_blocks
  Triple-parse_blocks text = search (keeps_rules, Keeps-parse_word, With-IsInside) depth 10
