-- ===== src/Gpu/Cuda/Memory/Kernels.antt =====
-- The runs of kernels, reads and releases of a session, and all its commands together.
use leanexe.Base.{
  ℕ, zero, suc, ◌≡◌, refl, ap, ◌∙◌, true, ◌&&◌, none, some, List, [], ◌∷◌, ◌++◌, if◌then◌else◌,
  arith, Text,
}
use leanexe.Gpu.Table.{Table, find_entry, free_entry}
use leanexe.Gpu.Machine.Triples.{
  Triple, Triple-bind, Triple-weaken, Triple-from, Triple-find_entry, Triple-fail, Keeps-bind,
  Triple-pure, Keeps-edit, Keeps-write_file, keeps_rules,
}
use leanexe.Gpu.Cuda.Driver.{Call, Driver, Held, synchronize}
use leanexe.Gpu.Cuda.Memory.{
  Blocks, find_block, is_block, all_blocks, memory_step, IsInside, Allocates, guard,
}
use leanexe.Gpu.Cuda.Memory.Owns.{Owns-free}
use leanexe.Gpu.Cuda.Memory.Calls.{
  With, Any, Block, With-IsInside, With-weaken, With-and, check-keeps, Keeps-release_host_words,
}
use leanexe.Gpu.Cuda.Memory.Release.{Emptied, Triple-release}
use leanexe.Gpu.Cuda.Memory.Session.{Triple-need_buffer, forget, whole_block}
use leanexe.Gpu.Cuda.Memory.Commands.{
  Triple-load, Triple-output, Triple-kernel, Triple-need_kernel, Triple-parse_blocks,
}
use leanexe.Gpu.Cuda.Session.{
  input_buffers, launch, run_kernel, read_buffer, drop_entry, free_named, run_command,
}

-- Every one of the addresses is a block.
abbrev Params : List ℕ → Blocks → Table Held → Type 0
Params ps bs t = all_blocks ps bs ≡ true

all_blocks-one_more :
    (ps : List ℕ) (p n : ℕ) (bs : Blocks)
    → all_blocks ps bs ≡ true
    → find_block p bs ≡ some n
    → all_blocks (ps ++ p ∷ []) bs ≡ true
unfolding all_blocks is_block
all_blocks-one_more [] p n bs h e = ap (λ o. is_block o && true) e
all_blocks-one_more (q ∷ ps) p n bs h e = ground (arith, all_blocks-one_more ps p n bs, h, e)

module _ (d : Driver) (allocates : Allocates d) where
  Triple-input_buffers :
      (F : Blocks → Table Held → Type 0) (out : Text) (names : List Text)
      → Triple
          (IsInside d)
          (With d F)
          (λ ps. With d (λ bs t. F bs t × Params ps bs t))
          (input_buffers out names)
  unfolding input_buffers all_blocks is_block
  Triple-input_buffers F out [] =
      Triple-pure _ [] (With-weaken d F (λ bs t. F bs t × Params [] bs t) (λ bs t o f. (f, refl)))
  Triple-input_buffers F out (name ∷ names) =
      Keeps-bind _ _ _ (search (keeps_rules, With-IsInside)) λ differs.
        Triple-bind _ _ _ _ (Triple-need_buffer d allocates F name) λ held.
          Triple-bind _ _ _ _
            (Triple-input_buffers (λ bs t. F bs t × Block held.buffer held.bytes bs t) out names)
            λ ps. Triple-pure _ (held.buffer ∷ ps) (
              With-weaken d (λ bs t. (F bs t × Block held.buffer held.bytes bs t) × Params ps bs t)
                (λ bs t. F bs t × Params (held.buffer ∷ ps) bs t)
                (λ bs t o ((f, b), h). (f, ap (λ o. is_block o && all_blocks ps bs) b ∙ h)))

  Triple-launch :
      (function blocks : ℕ) (ps : List ℕ)
      → Triple (IsInside d) (With d (Params ps)) (λ _. With d Any) (launch d function blocks ps)
  unfolding launch memory_step guard
  Triple-launch function zero ps = Triple-pure _ tt (forget d allocates (Params ps))
  Triple-launch function (suc n) ps =
      Keeps-bind _ _ _
        (check-keeps d (Params ps) _ _ (λ bs t r v h. ap (λ b. if b then some bs else none) h))
        λ launched. Triple-pure _ tt (forget d allocates (Params ps))

  Triple-run_kernel :
      (name blocks out : Text) (inputs : List Text)
      → Triple (IsInside d) (With d Any) (λ _. With d Any) (run_kernel d name blocks out inputs)
  unfolding run_kernel
  Triple-run_kernel name blocks_text out inputs =
      Keeps-bind _ _ _ (Triple-need_kernel d allocates name) λ function.
        Keeps-bind _ _ _ (Triple-parse_blocks d allocates blocks_text) λ blocks.
          Triple-bind _ _ _ _ (Triple-input_buffers Any out inputs) λ ps.
            Triple-bind _ _ _ _
              (Triple-need_buffer d allocates (λ bs t. Any bs t × Params ps bs t) out)
              λ held.
                Triple-from (With d (Params (ps ++ held.buffer ∷ []))) _ _
                  (With-weaken d
                    (λ bs t. (Any bs t × Params ps bs t) × Block held.buffer held.bytes bs t)
                    (Params (ps ++ held.buffer ∷ []))
                    (λ bs t o ((f, h), b). all_blocks-one_more ps held.buffer held.bytes bs h b))
                  (Triple-launch function blocks (ps ++ held.buffer ∷ []))

  Triple-read_buffer :
      (name path : Text)
      → Triple (IsInside d) (With d Any) (λ _. With d Any) (read_buffer d name path)
  unfolding read_buffer synchronize memory_step
  Triple-read_buffer name path =
      Triple-bind _ _ _ _ (Triple-need_buffer d allocates Any name) λ held.
        Triple-from (With d (Block held.buffer held.bytes)) _ _
          (With-weaken d (λ bs t. Any bs t × Block held.buffer held.bytes bs t)
            (Block held.buffer held.bytes) (λ bs t o (f, b). b))
          (Keeps-bind _ _ _
            (check-keeps d (Block held.buffer held.bytes) _ _
              (λ bs t r v h. whole_block d allocates held.buffer held.bytes bs h))
            λ queued.
              Keeps-bind _ _ _
                (check-keeps d (Block held.buffer held.bytes) Call.stream_synchronize _
                  (λ bs t r v h. refl))
                λ done.
                  Keeps-bind _ _ _
                    (Keeps-write_file path _ (With-IsInside d (Block held.buffer held.bytes)))
                    λ written.
                      Triple-weaken _ _ _ (λ a. forget d allocates (Block held.buffer held.bytes))
                        (Keeps-release_host_words d (Block held.buffer held.bytes)))

  without :
      (name : Text) (F : Blocks → Table Held → Type 0) (calls : List Call) (t : Table Held)
      → With d F calls t
      → With d Any calls (free_entry name t)
  unfolding With
  without name F calls t (bs, (e, (o, f))) = (bs, (e, (Owns-free name bs t o, tt)))

  Triple-drop_entry :
      (name : Text) → Triple (IsInside d) (With d Any) (λ _. With d Any) (drop_entry name)
  unfolding drop_entry
  Triple-drop_entry name = Keeps-edit (free_entry name) (without name Any)

  Triple-free_named :
      (name : Text) → Triple (IsInside d) (With d Any) (λ _. With d Any) (free_named d name)
  unfolding free_named
  Triple-free_named name =
      Triple-find_entry _ name _ _
        (Triple-fail _ _ (λ calls t (w, found). With-IsInside d Any calls t w))
        (λ held.
          Triple-bind (λ _. With d Any) _ _ _
            (Triple-weaken _ _ _ (λ a. forget d allocates (Emptied name))
              (Triple-from (With d (λ bs t. find_entry name t ≡ some held)) _ _
                (λ calls t w.
                  With-weaken d _ _ (λ bs t o (f, found). found) calls t
                    (With-and d Any (λ t. find_entry name t ≡ some held) calls t w))
                (Triple-release d name held)))
            (λ done. Triple-drop_entry name))

  ruleset command_rules = (
    keeps_rules, With-IsInside, Triple-load, Triple-output, Triple-kernel, Triple-run_kernel,
    Triple-read_buffer, Triple-free_named,
  )

  pub Triple-run_command :
      (command : Text) (words : List Text)
      → Triple (IsInside d) (With d Any) (λ _. With d Any) (run_command d command words)
  unfolding run_command
  Triple-run_command command (a ∷ b ∷ []) = search command_rules depth 16
  Triple-run_command command (a ∷ b ∷ c ∷ inputs) = search command_rules depth 16
  Triple-run_command command (a ∷ []) = search command_rules depth 16
  Triple-run_command command [] = search command_rules depth 16
