-- ===== src/Gpu/Words/Keeps.antt =====
-- The readers of words keep what holds of the calls and the table, and use up no loop's rounds.
use leanexe.Base.{
  ℕ, zero, suc, ◌≡◌, ◌≤◌, ◌<◌, Bool, false, List, [], ◌∷◌, ◌==◌, ◌||◌, Text, length, arith,
}
use leanexe.Base.Decimal.{strtoull}
use leanexe.Base.Decimal.Lengths.{length-strtoull}
use leanexe.Gpu.Table.{Table}
use leanexe.Gpu.Machine.{Report}
use leanexe.Gpu.Machine.Triples.{
  Triple, Triple-pure, Triple-fail, Triple-if, Triple-test, Keeps-pure, Keeps-bind, Keeps-bind_fact,
  Triple-weaken,
}
use leanexe.Gpu.Words.{parse_word, after_comma, parse_words}

shorter :
    (text : Text) (b : Bool)
    → (length (strtoull text).1 == length text || b) ≡ false
    → length (strtoull text).1 < length text
shorter text b e = grind (arith, length-strtoull text)

module _ {C E : Type 0} {X : List C → Type 0} {P : List C → Table E → Type 0} where
  -- The text that is left is shorter.
  Triple-parse_word :
      (text : Text) (limit : ℕ)
      → ((calls : List C) (t : Table E) → P calls t → X calls)
      → Triple X P (λ a calls t. P calls t × (length a.1 < length text)) (parse_word text limit)
  unfolding parse_word
  Triple-parse_word text limit px = search (Triple-test, Triple-fail, Triple-pure, px, shorter)

  pub Keeps-parse_word :
      (text : Text) (limit : ℕ)
      → ((calls : List C) (t : Table E) → P calls t → X calls)
      → Triple X P (λ _. P) (parse_word text limit)
  Keeps-parse_word text limit px =
      Triple-weaken _ (λ _. P) _ (λ a calls t (p, short). p) (Triple-parse_word text limit px)

  Keeps-after_comma :
      (bad : Report) (n : ℕ) (text : Text)
      → ((calls : List C) (t : Table E) → P calls t → X calls)
      → length text < suc n
      → Triple X P (λ rest calls t. P calls t × (length rest ≤ n)) (after_comma bad text)
  unfolding after_comma
  Keeps-after_comma bad n [] px h = Triple-pure _ _ (λ calls t p. (p, omega arith))
  Keeps-after_comma bad n (c ∷ s) px h =
      let fits : length s ≤ n = omega (arith, h) in
      search (Triple-if, Triple-fail, Triple-pure, px, fits)

  pub Keeps-parse_words :
      (f : ℕ) (bad : Report) (wide : Bool) (text : Text)
      → ((calls : List C) (t : Table E) → P calls t → X calls)
      → length text ≤ f
      → Triple X P (λ _. P) (parse_words f bad wide text)
  unfolding parse_words
  Keeps-parse_words f bad wide [] px h = Keeps-pure _
  Keeps-parse_words zero bad wide (c ∷ s) px h = absurd (omega (arith, h))
  Keeps-parse_words (suc f) bad wide (c ∷ s) px h =
      Keeps-bind_fact _ _ _ _ (Triple-parse_word (c ∷ s) _ px) λ a short.
        Keeps-bind_fact _ _ _ _ (Keeps-after_comma bad f _ px (omega (arith, h, short)))
          λ rest fits.
            Keeps-bind _ _ _ (Keeps-parse_words f bad wide rest px fits) λ words. Keeps-pure _
