-- ===== src/Gpu/Table/Tidy.antt =====
-- The bounds of the table: at most 4,096 entries, each with a name of its own that is shorter than 64
-- bytes.
use leanexe.Base.{
  suc, ◌≡◌, ◌≤◌, ◌<◌, refl, sym, ap, ◌∙◌, inl, inr, Bool-cases, false, Option-cases, none, some, [],
  ◌∷◌, ◌==◌, if◌then◌else◌, Text, text_eq, arith, length,
}
use mathlib.Core.Path.{subst}
use leanexe.Gpu.Table.{
  Table, max_entries, find_entry, set_entry, append_entry, last_first, free_entry,
}
use leanexe.Gpu.Table.Map.{
  IsDistinct, text_eq_sound, find-set, find-append, set-IsDistinct, append-IsDistinct, free-Removes,
}

pub record IsTidy {E : Type 0} (t : Table E) : Type 0 where
  pub distinct : IsDistinct t
  pub few : length t ≤ max_entries
  pub short : (n : Text) (h : E) → find_entry n t ≡ some h → length n < 64

module _ {E : Type 0} where
  length-set : (name : Text) (held : E) (t : Table E) → length (set_entry name held t) ≡ length t
  unfolding set_entry
  length-set name held [] = refl
  length-set name held ((key, old) ∷ t) = ground (arith, length-set name held t)

  set-missing :
      (name : Text) (held : E) (t : Table E) → find_entry name t ≡ none → set_entry name held t ≡ t
  unfolding set_entry find_entry
  set-missing name held [] h = refl
  set-missing name held ((key, old) ∷ t) h = elim (Bool-cases (text_eq key name)) [
    | inl same ↦ absurd (ground (arith, same, h))
    | inr other ↦
        simp (other, set_entry)
          (ap (λ r. (key, old) ∷ r) (set-missing name held t (ground (arith, other, h))))
  ]

  length-append :
      (name : Text) (held : E) (t : Table E) → length (append_entry name held t) ≡ suc (length t)
  unfolding append_entry
  length-append name held [] = refl
  length-append name held (entry ∷ t) = omega (arith, length-append name held t)

  length-last_first : (t : Table E) → length (last_first t) ≡ length t
  unfolding last_first
  length-last_first [] = refl
  length-last_first (entry ∷ t) = ground (arith, length-last_first t)

  length-free : (name : Text) (t : Table E) → length (free_entry name t) ≤ length t
  unfolding free_entry
  length-free name [] = omega arith
  length-free name ((key, held) ∷ t) = ground (arith, length-free name t, length-last_first t)

  short_either :
      (name n : Text) (held h : E) (t : Table E)
      → length name < 64
      → IsTidy t
      → (if text_eq name n then some held else find_entry n t) ≡ some h
      → length n < 64
  short_either name n held h t fits tidy e = elim (Bool-cases (text_eq name n)) [
    | inl same ↦ subst (λ s. length s < 64) (text_eq_sound name n same) fits
    | inr other ↦ tidy.short n h (ground (arith, other, e))
  ]

  pub set-IsTidy :
      (name : Text) (held : E) (t : Table E) → IsTidy t → IsTidy (set_entry name held t)
  set-IsTidy name held t tidy = elim (Option-cases (find_entry name t)) [
    | inl missing ↦ subst IsTidy (sym (set-missing name held t missing)) tidy
    | inr (old, present) ↦ record {
      distinct = set-IsDistinct name held old t present tidy.distinct;
      few = omega (arith, length-set name held t, tidy.few);
      short = λ n h e.
          short_either name n held h t (tidy.short name old present) tidy
            (sym (find-set n name held old t present) ∙ e);
    }
  ]

  pub append-IsTidy :
      (name : Text) (held : E) (t : Table E)
      → find_entry name t ≡ none
      → (length t == max_entries) ≡ false
      → length name < 64
      → IsTidy t
      → IsTidy (append_entry name held t)
  append-IsTidy name held t missing room fits tidy = record {
    distinct = append-IsDistinct name held t missing tidy.distinct;
    few = ground (arith, length-append name held t, tidy.few, room);
    short = λ n h e.
        short_either name n held h t fits tidy (sym (find-append n name held t missing) ∙ e);
  }

  pub free-IsTidy : (name : Text) (t : Table E) → IsTidy t → IsTidy (free_entry name t)
  free-IsTidy name t tidy =
      let (left, found) = free-Removes name t tidy.distinct in
      record {
        distinct = left;
        few = omega (arith, length-free name t, tidy.few);
        short = λ n h e. tidy.short n h (ground (arith, found n, e));
      }
