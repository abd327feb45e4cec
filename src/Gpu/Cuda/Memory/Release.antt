-- ===== src/Gpu/Cuda/Memory/Release.antt =====
-- An entry released: what it held is no block, or no longer one, and the table owns the others.
use Prim.Native.String.{String}
use leanexe.Base.{
  length, ◌≡◌, refl, ap, ◌∙◌, inl, inr, Bool, Bool-cases, true, false, not, Option, none, some,
  List, ◌∷◌, ◌==◌, if◌then◌else◌, arith, Text,
}
use leanexe.Gpu.Table.{max_entries, Table, find_entry, set_entry, append_entry}
use leanexe.Gpu.Table.Map.{text_eq_refl, find-set, find-append}
use leanexe.Gpu.Machine.{pure}
use leanexe.Gpu.Machine.Triples.{
  Triple, Triple-bind, Triple-from, Triple-find_entry, Triple-hold_to, Triple-add_entry_to,
  Triple-if, Triple-fail, Keeps-bind, Keeps-pure, Triple-pure,
}
use leanexe.Gpu.Cuda.Driver.{Call, Driver, Held, check, synchronize}
use leanexe.Gpu.Cuda.Driver.Checks.{Triple-check}
use leanexe.Gpu.Cuda.Memory.{
  Blocks, find_block, is_block, drop_block, memory_step, blocks_after, IsInside, guard,
}
use leanexe.Gpu.Cuda.Memory.Owns.{
  Backed, empty, backed, Owns, Owns-drop, Owns-set, Unheld-set, Owns-append,
}
use leanexe.Gpu.Cuda.Memory.Calls.{With, With-IsInside, after_call, check-keeps}
use leanexe.Gpu.Cuda.Session.{nothing, check_if, release, new_entry, empty_entry}

-- The entry holds nothing.
abbrev pub Emptied : Text → Blocks → Table Held → Type 0
Emptied name bs t = find_entry name t ≡ some nothing

-- The table will own blocks once the entry, which has held `held`, holds nothing.
unfoldable Releasing : Driver → Text → Held → List Call → Table Held → Type 0
Releasing d name held calls t =
    (bs : Blocks) × ((blocks_after d calls ≡ some bs)
      × (Owns bs (set_entry name nothing t) × (find_entry name t ≡ some held)))

is_block-Backed :
    (bs : Blocks) (held : Held)
    → (held.buffer == 0) ≡ false
    → Backed bs held
    → is_block (find_block held.buffer bs) ≡ true
unfolding is_block
is_block-Backed bs held h (empty e) = ground (arith, h, e)
is_block-Backed bs held h (backed e) = simp e

module _ (d : Driver) (name : Text) (held : Held) where
  abbrev Found : Blocks → Table Held → Type 0
  Found bs t = find_entry name t ≡ some held

  start :
      (calls : List Call) (t : Table Held) → With d Found calls t → Releasing d name held calls t
  unfolding With Releasing
  start calls t (bs, (e, (o, found))) =
      (bs, (e, (Owns-set name nothing held bs t found (empty refl) (inl refl) o, found)))

  dropped :
      (held.buffer == 0) ≡ false
      → (calls : List Call) (t : Table Held) (bs : Blocks) → blocks_after d calls ≡ some bs
      → Owns bs t
      → find_entry name t ≡ some held
      → blocks_after d (Call.mem_free held.buffer ∷ calls) ≡ some (drop_block held.buffer bs)
  unfolding memory_step guard
  dropped h calls t bs e o found = after_call d (Call.mem_free held.buffer) calls bs _ e (λ r v.
      ap (λ b. guard b (drop_block held.buffer bs))
        (is_block-Backed bs held h (o.backs name held found)))

  Triple-mem_free :
      (call_name : String)
      → (held.buffer == 0) ≡ false
      → Triple
          (IsInside d)
          (With d Found)
          (λ _. Releasing d name held)
          (check d (Call.mem_free held.buffer) call_name)
  unfolding With Releasing IsInside
  Triple-mem_free call_name h =
      Triple-check _ d (Call.mem_free held.buffer) call_name
        (λ calls t (bs, (e, (o, found))). (_, dropped h calls t bs e o found))
        (λ calls t (bs, (e, (o, found))). (
          _,
          (
            dropped h calls t bs e o found,
            (
              Owns-drop held.buffer bs (set_entry name nothing t)
                  (Unheld-set name nothing held bs t found refl (ground (arith, h)) o)
                  (Owns-set name nothing held bs t found (empty refl) (inl refl) o),
              found,
            ),
          ),
        ))

  Triple-free_buffer :
      Triple
        (IsInside d)
        (With d Found)
        (λ _. Releasing d name held)
        (check_if (not (held.buffer == 0)) d (Call.mem_free held.buffer) 0)
  unfolding check_if
  Triple-free_buffer = elim (Bool-cases (held.buffer == 0)) [
    | inl none_held ↦ simp (none_held, check_if) (Triple-pure (λ _. Releasing d name held) tt start)
    | inr some_held ↦
        simp (some_held, check_if)
          (Triple-bind (λ _. Releasing d name held) (λ _. Releasing d name held)
            (check d (Call.mem_free held.buffer) "cuMemFree") (λ _. pure tt)
            (Triple-mem_free "cuMemFree" some_held) (λ _. Keeps-pure tt))
  ]

  Releasing-unload :
      (call_name : String)
      → Triple
          (IsInside d)
          (Releasing d name held)
          (λ _. Releasing d name held)
          (check d (Call.module_unload held.kernel) call_name)
  unfolding Releasing IsInside memory_step
  Releasing-unload call_name =
      Triple-check _ d (Call.module_unload held.kernel) call_name
        (λ calls t (bs, (e, r)).
          (bs, after_call d (Call.module_unload held.kernel) calls bs _ e (λ r v. refl)))
        (λ calls t (bs, (e, r)).
          (bs, (after_call d (Call.module_unload held.kernel) calls bs _ e (λ r v. refl), r)))

  done :
      (calls : List Call) (t : Table Held)
      → Releasing d name held calls t
      → With d (Emptied name) calls (set_entry name nothing t)
  unfolding With Releasing
  done calls t (bs, (e, (o, found))) = (
    bs,
    (
      e,
      (
        o,
        find-set name name nothing held t found
            ∙ ap (λ b. if b then some nothing else find_entry name t) (text_eq_refl name),
      ),
    ),
  )

  Triple-unload :
      (releases : Bool)
      → Triple
          (IsInside d)
          (Releasing d name held)
          (λ _. Releasing d name held)
          (check_if releases d (Call.module_unload held.kernel) 1)
  unfolding check_if
  Triple-unload false = Keeps-pure tt
  Triple-unload true =
      Keeps-bind (λ _. Releasing d name held)
        (check d (Call.module_unload held.kernel) "cuModuleUnload") (λ _. pure tt)
        (Releasing-unload "cuModuleUnload") (λ _. Keeps-pure tt)

  pub Triple-release :
      Triple (IsInside d) (With d Found) (λ _. With d (Emptied name)) (release d name held)
  unfolding release synchronize memory_step
  Triple-release =
      Keeps-bind _ (synchronize d) _
        (check-keeps d Found Call.stream_synchronize "cuStreamSynchronize" (λ bs t r v f. refl))
        λ result.
          Triple-bind (λ _. Releasing d name held) _ _ _ Triple-free_buffer
            λ freed.
              Keeps-bind _ _ _ (Triple-unload (not (held.kernel == 0)))
                λ unloaded. Triple-hold_to (λ _. With d (Emptied name)) name nothing done

module _ (d : Driver) (name : Text) where
  abbrev Missing : Blocks → Table Held → Type 0
  Missing bs t = find_entry name t ≡ none

  appended :
      (calls : List Call) (t : Table Held)
      → With d Missing calls t
      → (length t == max_entries) ≡ false
      → With d (Emptied name) calls (append_entry name nothing t)
  unfolding With
  appended calls t (bs, (e, (o, missing))) room = (
    bs,
    (
      e,
      (
        Owns-append name nothing bs t missing refl o,
        find-append name name nothing t missing
            ∙ ap (λ b. if b then some nothing else find_entry name t) (text_eq_refl name),
      ),
    ),
  )

  Triple-new_entry :
      Triple (IsInside d) (With d Missing) (λ _. With d (Emptied name)) (new_entry name)
  unfolding new_entry
  Triple-new_entry = Triple-if _ _ _ _ (Triple-fail _ _ (With-IsInside d Missing)) (
      Triple-add_entry_to (λ _. With d (Emptied name)) name nothing (With-IsInside d Missing)
        appended)

  with_fact :
      (F : Blocks → Table Held → Type 0) (o : Option Held) (calls : List Call) (t : Table Held)
      → With d F calls t × (find_entry name t ≡ o)
      → With d (λ bs t. find_entry name t ≡ o) calls t
  unfolding With
  with_fact F o calls t ((bs, (e, (owns, f))), found) = (bs, (e, (owns, found)))

  pub Triple-empty_entry :
      (F : Blocks → Table Held → Type 0)
      → Triple (IsInside d) (With d F) (λ _. With d (Emptied name)) (empty_entry d name)
  unfolding empty_entry
  Triple-empty_entry F =
      Triple-find_entry _ name _ _ (Triple-from _ _ _ (with_fact F none) Triple-new_entry)
        (λ held. Triple-from _ _ _ (with_fact F (some held)) (Triple-release d name held))
