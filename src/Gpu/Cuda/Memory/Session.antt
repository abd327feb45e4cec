-- ===== src/Gpu/Cuda/Memory/Session.antt =====
-- The commands of a session use blocks only, and the table owns blocks after each.
use leanexe.Base.{
  ℕ, ◌*◌, ◌≡◌, refl, ap, inr, true, false, ◌&&◌, not, none, some, List, ◌==◌, if◌then◌else◌, arith,
  Text, length,
}
use leanexe.Gpu.Table.{Table, find_entry, set_entry}
use leanexe.Gpu.Machine.{pure}
use leanexe.Gpu.Machine.Triples.{
  Triple, Triple-bind, Triple-weaken, Triple-from, Triple-find_entry, Triple-hold_to, Triple-test,
  Triple-fail, Keeps-bind, Triple-pure,
}
use leanexe.Gpu.Cuda.Driver.{Call, Driver, Held, synchronize}
use leanexe.Gpu.Cuda.Memory.{Blocks, find_block, memory_step, IsInside, Allocates, guard, covers}
use leanexe.Gpu.Cuda.Memory.Blocks.{covers-block}
use leanexe.Gpu.Cuda.Memory.Owns.{Backed, empty, backed, Owns-set, IsUnheld}
use leanexe.Gpu.Cuda.Memory.Calls.{
  With, Any, Block, With-IsInside, With-weaken, check-keeps, Triple-alloc, Keeps-release_host_words,
}
use leanexe.Gpu.Cuda.Memory.Release.{Emptied, Triple-empty_entry}
use leanexe.Gpu.Cuda.Session.{nothing, allocate, buffer_entry, no_buffer, need_buffer, store_words}

module _ (d : Driver) (allocates : Allocates d) where
  -- The entry for a new block.
  filled :
      (name : Text) (p n : ℕ) (calls : List Call) (t : Table Held)
      → With d
          (λ bs t. (find_entry name t ≡ some nothing) × ((find_block p bs ≡ some n) × IsUnheld p t))
          calls
          t
      → With d
          (Block p n)
          calls
          (set_entry name (record { buffer = p; bytes = n; kernel = 0; function = 0 }) t)
  unfolding With
  filled name p n calls t (bs, (e, (o, (found, (block, unheld))))) =
      (bs, (e, (Owns-set name _ nothing bs t found (backed block) (inr unheld) o, block)))

  Triple-allocate :
      (F : Blocks → Table Held → Type 0) (name : Text) (n : ℕ)
      → Triple (IsInside d) (With d F) (λ p. With d (Block p n)) (allocate d name n)
  unfolding allocate
  Triple-allocate F name n =
      Triple-bind (λ _. With d (Emptied name)) _ _ _ (Triple-empty_entry d name F)
        λ done.
          Triple-bind _ _ _ _
            (Triple-alloc d allocates (λ t. find_entry name t ≡ some nothing) n "cuMemAlloc")
            λ p.
              Triple-bind (λ _. With d (Block p n)) _ _ _
                (Triple-hold_to _ name _ (filled name p n)) λ held. Triple-pure _ p (λ calls t h. h)

  reused :
      (held : Held) (n : ℕ) (bs : Blocks)
      → (not (held.buffer == 0) && held.bytes == n) ≡ true
      → Backed bs held
      → find_block held.buffer bs ≡ some n
  reused held n bs h (empty e) = ground (arith, h, e)
  reused held n bs h (backed e) = ground (arith, h, e)

  -- The entry under a name that is found, as its owner has it.
  found_backed :
      (F G : Blocks → Table Held → Type 0) (name : Text) (held : Held)
      → ((bs : Blocks) (t : Table Held) → F bs t → Backed bs held → G bs t)
      → (calls : List Call) (t : Table Held) → With d F calls t × (find_entry name t ≡ some held)
      → With d G calls t
  unfolding With
  found_backed F G name held h calls t ((bs, (e, (o, f))), found) =
      (bs, (e, (o, h bs t f (o.backs name held found))))

  pub Triple-buffer_entry :
      (F : Blocks → Table Held → Type 0) (name : Text) (n : ℕ)
      → Triple (IsInside d) (With d F) (λ p. With d (Block p n)) (buffer_entry d name n)
  unfolding buffer_entry
  Triple-buffer_entry F name n =
      Triple-find_entry (λ p. With d (Block p n)) name (allocate d name n) _
        (Triple-from (With d F) _ _ (λ calls t (w, found). w) (Triple-allocate F name n))
        (λ held.
          Triple-test (λ p. With d (Block p n)) (not (held.buffer == 0) && held.bytes == n)
            (pure held.buffer) (allocate d name n)
            (λ same.
              Triple-pure (λ p. With d (Block p n)) held.buffer
                (found_backed F (Block held.buffer n) name held
                  (λ bs t f b. reused held n bs same b)))
            (λ other.
              Triple-from (With d F) _ _ (λ calls t (w, found). w) (Triple-allocate F name n)))

  a_block :
      (held : Held) (bs : Blocks)
      → (held.buffer == 0) ≡ false
      → Backed bs held
      → find_block held.buffer bs ≡ some held.bytes
  a_block held bs h (empty e) = ground (arith, h, e)
  a_block held bs h (backed e) = e

  pub Triple-need_buffer :
      (F : Blocks → Table Held → Type 0) (name : Text)
      → Triple
          (IsInside d)
          (With d F)
          (λ held. With d (λ bs t. F bs t × Block held.buffer held.bytes bs t))
          (need_buffer name)
  unfolding need_buffer no_buffer
  Triple-need_buffer F name =
      Triple-find_entry _ name _ _
        (Triple-fail _ _ (λ calls t (w, found). With-IsInside d F calls t w))
        (λ held.
          Triple-test _ (held.buffer == 0) (no_buffer name) (pure held)
            (λ none_held. Triple-fail _ _ (λ calls t (w, found). With-IsInside d F calls t w))
            (λ some_held. Triple-pure _ held (
              found_backed F (λ bs t. F bs t × Block held.buffer held.bytes bs t) name held
                (λ bs t f b. (f, a_block held bs some_held b)))))

  -- What a command leaves.
  pub forget :
      (F : Blocks → Table Held → Type 0) (calls : List Call) (t : Table Held)
      → With d F calls t
      → With d Any calls t
  forget F = With-weaken d F Any (λ bs t o f. tt)

  pub whole_block :
      (p n : ℕ) (bs : Blocks) → find_block p bs ≡ some n → guard (covers p n bs) bs ≡ some bs
  unfolding guard
  whole_block p n bs h =
      ap (λ b. if b then some bs else none) (covers-block p n p n bs h (omega arith) (omega arith))

  pub Triple-store_words :
      (name : Text) (words : List ℕ)
      → Triple (IsInside d) (With d Any) (λ _. With d Any) (store_words d name words)
  unfolding store_words synchronize memory_step
  Triple-store_words name words =
      Triple-bind _ _ _ _ (Triple-buffer_entry Any name (4 * length words)) λ p.
        Keeps-bind _ _ _
          (check-keeps d (Block p (4 * length words)) (Call.copy_to_device p words)
            "cuMemcpyHtoDAsync" (λ bs t r v h. whole_block p (4 * length words) bs h))
          λ queued.
            Keeps-bind _ _ _
              (check-keeps d (Block p (4 * length words)) Call.stream_synchronize
                "cuStreamSynchronize" (λ bs t r v h. refl))
              λ done.
                Triple-weaken _ _ _ (λ a. forget (Block p (4 * length words)))
                  (Keeps-release_host_words d (Block p (4 * length words)))
