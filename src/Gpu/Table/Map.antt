-- ===== src/Gpu/Table/Map.antt =====
-- The table as a map from names: what `find_entry` gives after each change of it.
use leanexe.Base.{
  ◌≡◌, refl, sym, ap, ◌∙◌, inl, inr, Bool-cases, true, false, none, some, [], ◌∷◌, if◌then◌else◌,
  Text, text_eq, arith,
}
use leanexe.Gpu.Table.{Table, find_entry, set_entry, append_entry, last_first, free_entry}

pub text_eq_refl : (s : Text) → text_eq s s ≡ true
unfolding text_eq
text_eq_refl [] = refl
text_eq_refl (c ∷ s) = grind (arith, text_eq_refl s)

pub text_eq_sound : (s t : Text) → text_eq s t ≡ true → s ≡ t
unfolding text_eq
text_eq_sound [] [] h = refl
text_eq_sound [] (d ∷ t) h = grind (arith, h)
text_eq_sound (c ∷ s) [] h = grind (arith, h)
text_eq_sound (c ∷ s) (d ∷ t) h = grind (arith, text_eq_sound s t, h)

text_eq_sym : (s t : Text) → text_eq s t ≡ text_eq t s
unfolding text_eq
text_eq_sym [] [] = refl
text_eq_sym [] (d ∷ t) = refl
text_eq_sym (c ∷ s) [] = refl
text_eq_sym (c ∷ s) (d ∷ t) = grind (arith, text_eq_sym s t)

same_as : (s t n : Text) → text_eq s t ≡ true → text_eq s n ≡ text_eq t n
same_as s t n h = ap (λ u. text_eq u n) (text_eq_sound s t h)

-- A name that equals one of two different names differs from the other.
other_than : (s t n : Text) → text_eq s t ≡ false → text_eq s n ≡ true → text_eq t n ≡ false
other_than s t n h e = text_eq_sym t n ∙ (sym (same_as s n t e) ∙ h)

-- No two entries have one name.
unfoldable pub IsDistinct : {E : Type 0} → Table E → Type 0
IsDistinct [] = Unit
IsDistinct ((key, held) ∷ t) = (find_entry key t ≡ none) × IsDistinct t

module _ {E : Type 0} where
  pub find-set :
      (n name : Text) (held old : E) (t : Table E)
      → find_entry name t ≡ some old
      → find_entry n (set_entry name held t)
        ≡ (if text_eq name n then some held else find_entry n t)
  unfolding find_entry set_entry
  find-set n name held old [] h = grind (arith, h)
  find-set n name held old ((key, kept) ∷ t) h =
      ground (arith, find-set n name held old t, same_as key name n, other_than key name n, h)

  pub find-append :
      (n name : Text) (held : E) (t : Table E)
      → find_entry name t ≡ none
      → find_entry n (append_entry name held t)
        ≡ (if text_eq name n then some held else find_entry n t)
  unfolding find_entry append_entry
  find-append n name held [] h = refl
  find-append n name held ((key, kept) ∷ t) h =
      ground (arith, find-append n name held t, same_as key name n, other_than key name n, h)

  same_find : (k n : Text) (t : Table E) → text_eq k n ≡ true → find_entry n t ≡ find_entry k t
  same_find k n t h = ap (λ u. find_entry u t) (sym (text_eq_sound k n h))

  pub set-IsDistinct :
      (name : Text) (held old : E) (t : Table E)
      → find_entry name t ≡ some old
      → IsDistinct t
      → IsDistinct (set_entry name held t)
  unfolding find_entry set_entry IsDistinct
  set-IsDistinct name held old [] h d = tt
  set-IsDistinct name held old ((key, kept) ∷ t) h (fresh, d) =
      elim (Bool-cases (text_eq key name)) [
        | inl same ↦ simp (same, set_entry) (fresh, d)
        | inr other ↦
            simp (other, set_entry)
              (
                ground (arith, find-set key name held old t, text_eq_sym key name, h, other, fresh),
                set-IsDistinct name held old t (ground (arith, h, other)) d,
              )
      ]

  pub append-IsDistinct :
      (name : Text) (held : E) (t : Table E)
      → find_entry name t ≡ none
      → IsDistinct t
      → IsDistinct (append_entry name held t)
  unfolding find_entry append_entry IsDistinct
  append-IsDistinct name held [] h d = (refl, tt)
  append-IsDistinct name held ((key, kept) ∷ t) h (fresh, d) = (
    ground (arith, find-append key name held t, text_eq_sym key name, h, fresh),
    append-IsDistinct name held t (ground (arith, h)) d,
  )

  -- `t` has the entries of `s`, in some order.
  Reorders : Table E → Table E → Type 0
  Reorders s t = IsDistinct t × ((n : Text) → find_entry n t ≡ find_entry n s)

  second_place : (key : Text) (held : E) → Table E → Table E
  second_place key held t = elim t [
    | [] ↦ (key, held) ∷ []
    | last ∷ rest ↦ last ∷ (key, held) ∷ rest
  ]

  second_place-Reorders :
      (key : Text) (held : E) (r s : Table E)
      → find_entry key r ≡ none
      → Reorders r s
      → Reorders ((key, held) ∷ r) (second_place key held s)
  unfolding Reorders second_place find_entry IsDistinct
  second_place-Reorders key held r [] fresh (d, e) = ((refl, tt), λ n. ground (arith, e n))
  second_place-Reorders key held r ((last, kept) ∷ rest) fresh ((unique, d), e) = (
    (ground (arith, e key, fresh, unique, text_eq_sym key last), (ground (arith, e key, fresh), d)),
    λ n. ground (arith, e n, e key, fresh, other_than last key n),
  )

  last_first-Reorders : (t : Table E) → IsDistinct t → Reorders t (last_first t)
  unfolding IsDistinct last_first Reorders second_place
  last_first-Reorders [] d = (tt, λ n. refl)
  last_first-Reorders ((key, held) ∷ t) (fresh, d) =
      second_place-Reorders key held t (last_first t) fresh (last_first-Reorders t d)

  -- In a table without two entries of one name, after the entry of a name is freed, which puts the last
  -- entry in its place, that name has no entry, every other name has the entry that it had, and no two
  -- entries have one name.
  pub free-Removes :
      (name : Text) (t : Table E)
      → IsDistinct t
      → IsDistinct (free_entry name t)
        × ((n : Text)
            → find_entry n (free_entry name t) ≡ (if text_eq name n then none else find_entry n t))
  unfolding IsDistinct free_entry find_entry Reorders
  free-Removes name [] d = (tt, λ n. ground arith)
  free-Removes name ((key, held) ∷ t) (fresh, d) = elim (Bool-cases (text_eq key name)) [
    | inl same ↦
        let (moved, e) = last_first-Reorders t d in
        simp (same, free_entry)
          (moved, λ n. ground (arith, e n, same_as key name n same, same_find key n t, fresh))
    | inr other ↦
        let (left, e) = free-Removes name t d in
        simp (other, free_entry)
          (
            (ground (arith, e key, fresh), left),
            λ n. ground (arith, e n, other_than key name n, other),
          )
  ]
