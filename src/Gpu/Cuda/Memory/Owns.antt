-- ===== src/Gpu/Cuda/Memory/Owns.antt =====
-- The session's table owns blocks: each entry's buffer is a block of its size, or there is none, and no
-- two entries have one buffer.
use leanexe.Base.{
  ℕ, ◌≡◌, ◌≢◌, sym, ◌∙◌, ap, ◌⊎◌, inl, inr, Bool-cases, true, false, none, some, ◌∷◌, Text, text_eq,
  arith,
}
use mathlib.Core.Path.{subst}
use leanexe.Gpu.Table.{Table, find_entry, set_entry, append_entry, free_entry}
use leanexe.Gpu.Table.Map.{
  IsDistinct, text_eq_sound, text_eq_refl, find-set, find-append, set-IsDistinct, append-IsDistinct,
  free-Removes,
}
use leanexe.Gpu.Cuda.Driver.{Held}
use leanexe.Gpu.Cuda.Memory.{Blocks, find_block, drop_block}
use leanexe.Gpu.Cuda.Memory.Blocks.{find-drop, find-alloc}

pub data Backed (bs : Blocks) (held : Held) : Type 0 where
  empty : held.buffer ≡ 0 → Backed bs held
  backed : find_block held.buffer bs ≡ some held.bytes → Backed bs held

pub record Owns (bs : Blocks) (t : Table Held) : Type 0 where
  pub distinct : IsDistinct t
  pub backs : (n : Text) (h : Held) → find_entry n t ≡ some h → Backed bs h
  pub apart :
      (n m : Text) (h k : Held)
      → find_entry n t ≡ some h
      → find_entry m t ≡ some k
      → h.buffer ≢ 0
      → h.buffer ≡ k.buffer
      → text_eq n m ≡ true

-- No entry has the buffer `p`.
unfoldable pub IsUnheld : ℕ → Table Held → Type 0
IsUnheld p t = (n : Text) (h : Held) → find_entry n t ≡ some h → h.buffer ≢ p

no_value : {A : Type 0} (a : A) → none ≡ some a → ⊥
no_value a h = grind (arith, h)

truth_differs : true ≡ false → ⊥
truth_differs h = grind (arith, h)

Unheld-Backed :
    (p : ℕ) (bs : Blocks) (h : Held) → p ≢ 0 → find_block p bs ≡ none → Backed bs h → h.buffer ≢ p
Unheld-Backed p bs h nonzero fresh (empty e) same = nonzero (sym same ∙ e)
Unheld-Backed p bs h nonzero fresh (backed e) same =
    no_value h.bytes (sym fresh ∙ (ap (λ q. find_block q bs) (sym same) ∙ e))

Backed-alloc :
    (p n : ℕ) (bs : Blocks) (h : Held)
    → find_block p bs ≡ none
    → Backed bs h
    → Backed ((p, n) ∷ bs) h
Backed-alloc p n bs h fresh (empty e) = empty e
Backed-alloc p n bs h fresh (backed e) = backed (find-alloc p h.buffer n h.bytes bs fresh e)

Backed-drop :
    (p : ℕ) (bs : Blocks) (h : Held) → h.buffer ≢ p → Backed bs h → Backed (drop_block p bs) h
Backed-drop p bs h other (empty e) = empty e
Backed-drop p bs h other (backed e) = backed (find-drop p h.buffer bs other ∙ e)

pub Owns-alloc :
    (p n : ℕ) (bs : Blocks) (t : Table Held)
    → p ≢ 0
    → find_block p bs ≡ none
    → Owns bs t
    → Owns ((p, n) ∷ bs) t × IsUnheld p t
unfolding IsUnheld
Owns-alloc p n bs t nonzero fresh o = (
  record {
    distinct = o.distinct;
    backs = λ m h e. Backed-alloc p n bs h fresh (o.backs m h e);
    apart = o.apart;
  },
  λ m h e. Unheld-Backed p bs h nonzero fresh (o.backs m h e),
)

pub Owns-drop :
    (p : ℕ) (bs : Blocks) (t : Table Held) → IsUnheld p t → Owns bs t → Owns (drop_block p bs) t
unfolding IsUnheld
Owns-drop p bs t unheld o = record {
  distinct = o.distinct;
  backs = λ m h e. Backed-drop p bs h (unheld m h e) (o.backs m h e);
  apart = o.apart;
}

-- What is found after an entry is written: the entry itself, or another one.
found_after_set :
    (n name : Text) (held old h : Held) (t : Table Held)
    → find_entry name t ≡ some old
    → find_entry n (set_entry name held t) ≡ some h
    → ((n ≡ name) × (held ≡ h)) ⊎ ((text_eq name n ≡ false) × (find_entry n t ≡ some h))
found_after_set n name held old h t present e = elim (Bool-cases (text_eq name n)) [
  | inl same ↦
      inl (
        sym (text_eq_sound name n same),
        grind (arith, find-set n name held old t present, same, e),
      )
  | inr other ↦ inr (other, grind (arith, find-set n name held old t present, other, e))
]

found_after_append :
    (n name : Text) (held h : Held) (t : Table Held)
    → find_entry name t ≡ none
    → find_entry n (append_entry name held t) ≡ some h
    → ((n ≡ name) × (held ≡ h)) ⊎ ((text_eq name n ≡ false) × (find_entry n t ≡ some h))
found_after_append n name held h t missing e = elim (Bool-cases (text_eq name n)) [
  | inl same ↦
      inl
        (sym (text_eq_sound name n same), grind (arith, find-append n name held t missing, same, e))
  | inr other ↦ inr (other, grind (arith, find-append n name held t missing, other, e))
]

-- The entry that is written, or another one.
Place : Text → Held → Table Held → Text → Held → Type 0
Place name held t n h =
    ((n ≡ name) × (held ≡ h)) ⊎ ((text_eq name n ≡ false) × (find_entry n t ≡ some h))

unheld_place :
    (held k : Held) (m : Text) (t : Table Held)
    → held.buffer ≡ 0 ⊎ IsUnheld held.buffer t
    → find_entry m t ≡ some k
    → k.buffer ≢ 0
    → k.buffer ≢ held.buffer
unfolding IsUnheld
unheld_place held k m t (inl zero_buffer) e nonzero same = nonzero (same ∙ zero_buffer)
unheld_place held k m t (inr unheld) e nonzero same = unheld m k e same

apart_places :
    (name n m : Text) (held h k : Held) (bs : Blocks) (t : Table Held)
    → held.buffer ≡ 0 ⊎ IsUnheld held.buffer t
    → Owns bs t
    → Place name held t n h
    → Place name held t m k
    → h.buffer ≢ 0
    → h.buffer ≡ k.buffer
    → text_eq n m ≡ true
unfolding Place
apart_places name n m held h k bs t fresh o (inl (a, x)) (inl (b, y)) nonzero same =
    ap (λ s. text_eq s m) a ∙ (ap (text_eq name) b ∙ text_eq_refl name)
apart_places name n m held h k bs t fresh o (inl (a, x)) (inr (b, y)) nonzero same = absurd (
    unheld_place held k m t fresh y (λ e. nonzero (same ∙ e))
      (sym same ∙ ap (λ u. u.buffer) (sym x)))
apart_places name n m held h k bs t fresh o (inr (a, x)) (inl (b, y)) nonzero same =
    absurd (unheld_place held h n t fresh x nonzero (same ∙ ap (λ u. u.buffer) (sym y)))
apart_places name n m held h k bs t fresh o (inr (a, x)) (inr (b, y)) nonzero same =
    o.apart n m h k x y nonzero same

Place-Backed :
    (name n : Text) (held h : Held) (bs : Blocks) (t : Table Held)
    → Backed bs held
    → Owns bs t
    → Place name held t n h
    → Backed bs h
unfolding Place
Place-Backed name n held h bs t b o (inl (a, x)) = subst (Backed bs) x b
Place-Backed name n held h bs t b o (inr (a, x)) = o.backs n h x

pub Owns-set :
    (name : Text) (held old : Held) (bs : Blocks) (t : Table Held)
    → find_entry name t ≡ some old
    → Backed bs held
    → held.buffer ≡ 0 ⊎ IsUnheld held.buffer t
    → Owns bs t
    → Owns bs (set_entry name held t)
unfolding Place
Owns-set name held old bs t present b fresh o = record {
  distinct = set-IsDistinct name held old t present o.distinct;
  backs =
      λ n h e. Place-Backed name n held h bs t b o (found_after_set n name held old h t present e);
  apart = λ n m h k x y.
      apart_places name n m held h k bs t fresh o (found_after_set n name held old h t present x)
        (found_after_set m name held old k t present y);
}

-- Once an entry holds nothing, no entry has the buffer that it had.
pub Unheld-set :
    (name : Text) (held old : Held) (bs : Blocks) (t : Table Held)
    → find_entry name t ≡ some old
    → held.buffer ≡ 0
    → old.buffer ≢ 0
    → Owns bs t
    → IsUnheld old.buffer (set_entry name held t)
unfolding IsUnheld
Unheld-set name held old bs t present e nonzero o m h x same =
    elim (found_after_set m name held old h t present x) [
      | inl (a, y) ↦ nonzero (sym same ∙ (ap (λ u. u.buffer) (sym y) ∙ e))
      | inr (a, y) ↦ truth_differs (sym (o.apart name m old h present y nonzero (sym same)) ∙ a)
    ]

pub Owns-append :
    (name : Text) (held : Held) (bs : Blocks) (t : Table Held)
    → find_entry name t ≡ none
    → held.buffer ≡ 0
    → Owns bs t
    → Owns bs (append_entry name held t)
unfolding Place
Owns-append name held bs t missing e o = record {
  distinct = append-IsDistinct name held t missing o.distinct;
  backs = λ n h x.
      Place-Backed name n held h bs t (empty e) o (found_after_append n name held h t missing x);
  apart = λ n m h k x y.
      apart_places name n m held h k bs t (inl e) o (found_after_append n name held h t missing x)
        (found_after_append m name held k t missing y);
}

found_after_free :
    (n name : Text) (h : Held) (t : Table Held)
    → IsDistinct t
    → find_entry n (free_entry name t) ≡ some h
    → find_entry n t ≡ some h
found_after_free n name h t d x = let (left, e) = free-Removes name t d in ground (arith, e n, x)

pub Owns-free :
    (name : Text) (bs : Blocks) (t : Table Held) → Owns bs t → Owns bs (free_entry name t)
Owns-free name bs t o = record {
  distinct = (free-Removes name t o.distinct).0;
  backs = λ n h x. o.backs n h (found_after_free n name h t o.distinct x);
  apart = λ n m h k x y.
      o.apart n m h k (found_after_free n name h t o.distinct x)
        (found_after_free m name k t o.distinct y);
}
