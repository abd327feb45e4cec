-- ===== src/Gpu/Cuda/Memory/Calls.antt =====
-- One call of the driver on the blocks that the table owns.
use Prim.Native.String.{String}
use leanexe.Base.{ℕ, ◌≡◌, refl, ap, ◌∙◌, true, Option, none, some, List, ◌∷◌, arith}
use leanexe.Gpu.Table.{Table}
use leanexe.Gpu.Machine.Triples.{Triple, triple}
use leanexe.Gpu.Cuda.Driver.{Call, Driver, Held, check, release_host_words}
use leanexe.Gpu.Cuda.Driver.Checks.{Triple-check_result, Triple-check}
use leanexe.Gpu.Cuda.Memory.{
  Blocks, find_block, memory_step, blocks_after, IsInside, Allocates, guard, is_block, drop_block,
}
use leanexe.Gpu.Cuda.Memory.Owns.{Owns, Owns-alloc, Owns-drop, IsUnheld}

-- The calls have used blocks only, the table owns blocks, and `F` holds of the blocks and the table.
unfoldable pub With : Driver → (Blocks → Table Held → Type 0) → List Call → Table Held → Type 0
With d F calls t = (bs : Blocks) × ((blocks_after d calls ≡ some bs) × (Owns bs t × F bs t))

abbrev pub Any : Blocks → Table Held → Type 0
Any bs t = Unit

-- `p` is a block of `n` bytes.
abbrev pub Block : ℕ → ℕ → Blocks → Table Held → Type 0
Block p n bs t = find_block p bs ≡ some n

pub after_call :
    (d : Driver) (c : Call) (calls : List Call) (bs : Blocks) (after : Option Blocks)
    → blocks_after d calls ≡ some bs
    → ((r v : ℕ) → memory_step r v c (some bs) ≡ after)
    → blocks_after d (c ∷ calls) ≡ after
unfolding blocks_after
after_call d c calls bs after e h =
    ap (memory_step (d.result calls c) (d.value calls c) c) e
    ∙ h (d.result calls c) (d.value calls c)

module _ (d : Driver) (F : Blocks → Table Held → Type 0) where
  pub With-IsInside : (calls : List Call) (t : Table Held) → With d F calls t → IsInside d calls
  unfolding With IsInside
  With-IsInside calls t (bs, (e, r)) = (bs, e)

  pub With-weaken :
      (G : Blocks → Table Held → Type 0)
      → ((bs : Blocks) (t : Table Held) → Owns bs t → F bs t → G bs t)
      → (calls : List Call) (t : Table Held) → With d F calls t
      → With d G calls t
  unfolding With
  With-weaken G h calls t (bs, (e, (o, f))) = (bs, (e, (o, h bs t o f)))

  -- A fact of the table beside.
  pub With-and :
      (T : Table Held → Type 0) (calls : List Call) (t : Table Held)
      → With d F calls t × T t
      → With d (λ bs t. F bs t × T t) calls t
  unfolding With
  With-and T calls t ((bs, (e, (o, f))), h) = (bs, (e, (o, (f, h))))

  -- A call that leaves the blocks as they are.
  pub check-keeps :
      (c : Call) (name : String)
      → ((bs : Blocks) (t : Table Held) (r v : ℕ) → F bs t → memory_step r v c (some bs) ≡ some bs)
      → Triple (IsInside d) (With d F) (λ _. With d F) (check d c name)
  unfolding With IsInside blocks_after
  check-keeps c name h =
      Triple-check (λ _. With d F) d c name
        (λ calls t (bs, (e, (o, f))). (bs, ap (memory_step _ _ c) e ∙ h bs t _ _ f))
        (λ calls t (bs, (e, (o, f))). (bs, (ap (memory_step _ _ c) e ∙ h bs t _ _ f, (o, f))))

  pub Keeps-release_host_words : Triple (IsInside d) (With d F) (λ _. With d F) release_host_words
  unfolding release_host_words With blocks_after memory_step
  Keeps-release_host_words = triple λ w (bs, (e, r)). (
    (
      bs,
      (
        ap
            (memory_step (d.result w.calls Call.free_words) (d.value w.calls Call.free_words)
              Call.free_words)
            e,
        r,
      ),
    ),
    refl,
  )

-- A new block: no entry has its buffer.
module _ (d : Driver) (allocates : Allocates d) where
  -- The table owns the blocks without an address that no entry has.
  pub Triple-free :
      (F G : Blocks → Table Held → Type 0) (p : ℕ) (name : String)
      → ((bs : Blocks) (t : Table Held)
          → F bs t
          → (is_block (find_block p bs) ≡ true) × (IsUnheld p t × G (drop_block p bs) t))
      → Triple (IsInside d) (With d F) (λ _. With d G) (check d (Call.mem_free p) name)
  unfolding With IsInside memory_step guard
  Triple-free F G p name h =
      Triple-check (λ _. With d G) d (Call.mem_free p) name
        (λ calls t (bs, (e, (o, f))). (
          _,
          after_call d (Call.mem_free p) calls bs _ e
              (λ r v. ap (λ b. guard b (drop_block p bs)) (h bs t f).0),
        ))
        (λ calls t (bs, (e, (o, f))).
          let (is, (unheld, g)) = h bs t f in
          (
            drop_block p bs,
            (
              after_call d (Call.mem_free p) calls bs _ e
                  (λ r v. ap (λ b. guard b (drop_block p bs)) is),
              (Owns-drop p bs t unheld o, g),
            ),
          ))

  pub Triple-alloc_to :
      (F : Blocks → Table Held → Type 0) (G : ℕ → Blocks → Table Held → Type 0) (n : ℕ)
      (name : String)
      → ((p : ℕ) (bs : Blocks) (t : Table Held)
          → find_block p bs ≡ none
          → IsUnheld p t
          → F bs t
          → G p ((p, n) ∷ bs) t)
      → Triple (IsInside d) (With d F) (λ p. With d (G p)) (check d (Call.mem_alloc n) name)
  unfolding With IsInside blocks_after memory_step Allocates
  Triple-alloc_to F G n name h =
      Triple-check_result (λ p. With d (G p)) d (Call.mem_alloc n) name
        (λ calls t (bs, (e, r)) failure.
          (bs, ap (memory_step _ _ (Call.mem_alloc n)) e ∙ ground (arith, failure)))
        (λ calls t (bs, (e, (o, f))) success.
          let (nonzero, fresh) = allocates calls n bs e (ground (arith, success)) in
          let (owns, unheld) =
            Owns-alloc (d.value calls (Call.mem_alloc n)) n bs t nonzero fresh o in
          (
            _,
            (
              ap (memory_step _ _ (Call.mem_alloc n)) e ∙ ground (arith, success),
              (owns, h (d.value calls (Call.mem_alloc n)) bs t fresh unheld f),
            ),
          ))

  pub Triple-alloc :
      (T : Table Held → Type 0) (n : ℕ) (name : String)
      → Triple
          (IsInside d)
          (With d (λ bs t. T t))
          (λ p. With d (λ bs t. T t × ((find_block p bs ≡ some n) × IsUnheld p t)))
          (check d (Call.mem_alloc n) name)
  unfolding find_block
  Triple-alloc T n name =
      Triple-alloc_to (λ bs t. T t) (λ p bs t. T t × ((find_block p bs ≡ some n) × IsUnheld p t)) n
        name (λ p bs t fresh unheld f. (f, (ground arith, unheld)))
