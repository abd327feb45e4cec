-- ===== src/Native/Memory/Blocks.antt =====
-- Consecutive words in memory, and records as the host writes and checks them.
use leanexe.Base.{
  ℕ, ◌+◌, ◌*◌, ◌^◌, ◌≤◌, ◌<◌, ◌≡◌, refl, sym, ◌∙◌, inl, inr, List, [], ◌∷◌, arith, length, All,
}
use leanexe.Native.Memory.{put_word}
use leanexe.Native.Memory.Words.{put_word-outside, get_word-put_word, get_word-same}
use leanexe.Native.Memory.Access.{word_at}

-- The words `xs` from address `p` on, written one after the other.
unfoldable pub put_words : ℕ → List ℕ → (ℕ → ℕ) → ℕ → ℕ
put_words p [] m = m
put_words p (x ∷ xs) m = put_words (p + 8) xs (put_word 8 0 p x m)

-- The words from address `p` on are `xs`.
abbrev pub Holds : (ℕ → ℕ) → ℕ → List ℕ → Type 0
Holds m p [] = Unit
Holds m p (x ∷ xs) = (word_at m p ≡ x) × Holds m (p + 8) xs

abbrev pub Small : List ℕ → Type 0
Small = All (λ x. x < 2 ^ 64)

-- Two memories agree on the addresses from `lo` up to `hi`.
abbrev pub Agree : ℕ → ℕ → (ℕ → ℕ) → (ℕ → ℕ) → Type 0
Agree lo hi m m' = (a : ℕ) → lo ≤ a → a < hi → m a ≡ m' a

pub word_at-Agree :
    (lo hi q : ℕ) (m m' : ℕ → ℕ)
    → Agree lo hi m m'
    → lo ≤ q
    → q + 8 ≤ hi
    → word_at m q ≡ word_at m' q
word_at-Agree lo hi q m m' same h k =
    get_word-same 8 0 q 0 m m' λ j _ j8. same (q + j) (omega arith) (omega arith)

pub Holds-Agree :
    (lo hi p : ℕ) (xs : List ℕ) (m m' : ℕ → ℕ)
    → Agree lo hi m m'
    → lo ≤ p
    → p + 8 * length xs ≤ hi
    → Holds m p xs
    → Holds m' p xs
Holds-Agree lo hi p [] m m' same h k _ = tt
Holds-Agree lo hi p (x ∷ xs) m m' same h k (e, rest) = (
  sym (word_at-Agree lo hi p m m' same h (omega arith)) ∙ e,
  Holds-Agree lo hi (p + 8) xs m m' same (omega arith) (omega arith) rest,
)

pub put_words-below : (p : ℕ) (xs : List ℕ) (m : ℕ → ℕ) (a : ℕ) → a < p → put_words p xs m a ≡ m a
unfolding put_words
put_words-below p [] m a h = refl
put_words-below p (x ∷ xs) m a h =
    put_words-below (p + 8) xs _ a (omega arith) ∙ put_word-outside 8 0 p x m a (inl (omega arith))

pub put_words-above :
    (p : ℕ) (xs : List ℕ) (m : ℕ → ℕ) (a : ℕ) → p + 8 * length xs ≤ a → put_words p xs m a ≡ m a
unfolding put_words
put_words-above p [] m a h = refl
put_words-above p (x ∷ xs) m a h =
    put_words-above (p + 8) xs _ a (omega arith) ∙ put_word-outside 8 0 p x m a (inr (omega arith))

pub put_words-Holds : (p : ℕ) (xs : List ℕ) (m : ℕ → ℕ) → Small xs → Holds (put_words p xs m) p xs
unfolding put_words
put_words-Holds p [] m _ = tt
put_words-Holds p (x ∷ xs) m (small, rest) = (
  word_at-Agree p (p + 8) p (put_words (p + 8) xs (put_word 8 0 p x m)) (put_word 8 0 p x m)
        (λ a _ h. put_words-below (p + 8) xs _ a h) (omega arith) (omega arith)
      ∙ get_word-put_word p x m small,
  put_words-Holds (p + 8) xs _ rest,
)
