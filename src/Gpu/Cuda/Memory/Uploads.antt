-- ===== src/Gpu/Cuda/Memory/Uploads.antt =====
-- The blocks of one run of a kernel: different ones that no entry of the table has.
use leanexe.Base.{
  ℕ, ◌≡◌, ◌≢◌, refl, ap, sym, ◌∙◌, true, ◌&&◌, none, some, List, [], ◌∷◌, ◌++◌, arith,
}
use leanexe.Gpu.Table.{Table}
use leanexe.Gpu.Cuda.Driver.{Held}
use leanexe.Gpu.Cuda.Memory.{Blocks, find_block, is_block, all_blocks, drop_block}
use leanexe.Gpu.Cuda.Memory.Blocks.{find-alloc, find-drop}
use leanexe.Gpu.Cuda.Memory.Owns.{IsUnheld}

unfoldable pub NotIn : ℕ → List ℕ → Type 0
NotIn q [] = Unit
NotIn q (p ∷ ps) = (p ≢ q) × NotIn q ps

-- Different blocks that no entry has.
unfoldable pub Uploaded : List ℕ → Blocks → Table Held → Type 0
Uploaded [] bs t = Unit
Uploaded (p ∷ ps) bs t =
    ((n : ℕ) × (find_block p bs ≡ some n)) × (IsUnheld p t × (NotIn p ps × Uploaded ps bs t))

NotIn-one_more : (q p : ℕ) (ps : List ℕ) → p ≢ q → NotIn q ps → NotIn q (ps ++ p ∷ [])
unfolding NotIn
NotIn-one_more q p [] h d = (h, tt)
NotIn-one_more q p (r ∷ ps) h (e, d) = (e, NotIn-one_more q p ps h d)

absent : (q p m : ℕ) (bs : Blocks) → find_block q bs ≡ some m → find_block p bs ≡ none → p ≢ q
absent q p m bs e fresh same = grind (arith, sym fresh ∙ (ap (λ r. find_block r bs) same ∙ e))

pub Uploaded-one_more :
    (ps : List ℕ) (p n : ℕ) (bs : Blocks) (t : Table Held)
    → find_block p bs ≡ none
    → IsUnheld p t
    → Uploaded ps bs t
    → Uploaded (ps ++ p ∷ []) ((p, n) ∷ bs) t
unfolding Uploaded NotIn find_block
Uploaded-one_more [] p n bs t fresh unheld u = ((n, ground arith), (unheld, (tt, tt)))
Uploaded-one_more (q ∷ ps) p n bs t fresh unheld ((m, e), (h, (d, u))) = (
  (m, find-alloc p q n m bs fresh e),
  (
    h,
    (
      NotIn-one_more q p ps (λ same. absent q p m bs e fresh same) d,
      Uploaded-one_more ps p n bs t fresh unheld u,
    ),
  ),
)

pub Uploaded-drop :
    (p : ℕ) (ps : List ℕ) (bs : Blocks) (t : Table Held)
    → NotIn p ps
    → Uploaded ps bs t
    → Uploaded ps (drop_block p bs) t
unfolding Uploaded NotIn
Uploaded-drop p [] bs t d u = tt
Uploaded-drop p (q ∷ ps) bs t (other, d) ((m, e), (h, (apart, u))) =
    ((m, find-drop p q bs other ∙ e), (h, (apart, Uploaded-drop p ps bs t d u)))

pub Uploaded-all_blocks :
    (ps : List ℕ) (bs : Blocks) (t : Table Held) → Uploaded ps bs t → all_blocks ps bs ≡ true
unfolding Uploaded all_blocks is_block
Uploaded-all_blocks [] bs t u = refl
Uploaded-all_blocks (p ∷ ps) bs t ((m, e), (h, (d, u))) =
    ap (λ o. is_block o && all_blocks ps bs) e ∙ Uploaded-all_blocks ps bs t u
