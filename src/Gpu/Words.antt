-- ===== src/Gpu/Words.antt =====
-- Words in buffer specifications, and the lines and tokens of a session.
pub mod Keeps
use leanexe.Base.{
  ℕ, zero, suc, ◌+◌, ◌-◌, ◌*◌, ◌/◌, ◌%◌, ◌^◌, Bool, true, false, ◌&&◌, ◌||◌, not, Option, none,
  some, List, [], ◌∷◌, ◌++◌, ltb, ◌==◌, if◌then◌else◌, Text, codes, length, u64_mod,
}
use leanexe.Base.Decimal.{decimal, strtoull, overflows}
use leanexe.Base.Lines.{fgets, c_string, split_tokens}
use leanexe.Base.Run.{ok, out_of_fuel}
use leanexe.Native.Parse.{is_empty}
use leanexe.Gpu.Machine.{pure, ◌>>=◌, ◌>>◌, Report, M, fail}

abbrev pub fill_word : ℕ
fill_word = 0x7fc00001

-- A 64-bit word is two words, the least significant first.
unfoldable pub halves : Bool → ℕ → List ℕ
halves false value = value % 2 ^ 32 ∷ []
halves true value = value % 2 ^ 32 ∷ value / 2 ^ 32 ∷ []

module _ {C E : Type 0} where
  -- The word at the text's start, and the text behind it.
  unfoldable pub parse_word : Text → ℕ → M C E (ℕ × Text)
  parse_word text limit =
      let (value, end) = strtoull text in
      if length end == length text || (overflows text || ltb limit value)
      then fail (Report.named "bad word: %s" text)
      else pure (value, end)

  -- The text behind a comma; at the end of the text there may be none.
  unfoldable pub after_comma : Report → Text → M C E Text
  after_comma bad [] = pure []
  after_comma bad (c ∷ s) = if c == b',' then pure s else fail bad

  -- The loop over the words of a specification; each round reads at least a digit.
  unfoldable pub parse_words : ℕ → Report → Bool → Text → M C E (List ℕ)
  parse_words f bad wide [] = pure []
  parse_words zero bad wide (c ∷ s) = λ _. out_of_fuel
  parse_words (suc f) bad wide (c ∷ s) = do
    (value, end) ← parse_word (c ∷ s) (if wide then u64_mod - 1 else 2 ^ 32 - 1)
    rest ← after_comma bad end
    words ← parse_words f bad wide rest
    pure (halves wide value ++ words)

-- The little-endian words of a file whose length is a multiple of 4.
unfoldable pub words_of_bytes : Text → List ℕ
words_of_bytes (a ∷ b ∷ c ∷ d ∷ s) = (a + b * 2 ^ 8 + c * 2 ^ 16 + d * 2 ^ 24) ∷ words_of_bytes s
words_of_bytes s = []

-- The words in decimal with commas between them.
unfoldable pub comma_words : List ℕ → Text
comma_words [] = []
comma_words (x ∷ []) = decimal x
comma_words (x ∷ y ∷ xs) = decimal x ++ b',' ∷ comma_words (y ∷ xs)

-- A line without its newline.
unfoldable pub strip_newline : Text → Text
strip_newline [] = []
strip_newline (c ∷ []) = if c == b'\n' then [] else c ∷ []
strip_newline (c ∷ d ∷ s) = c ∷ strip_newline (d ∷ s)

-- The words of a line, 64 at most.
unfoldable pub line_words : Text → List Text
line_words buffer = split_tokens 64 (strip_newline (c_string buffer))

-- `n` copies of `x`.
unfoldable pub replicate : ℕ → ℕ → List ℕ
replicate zero x = []
replicate (suc n) x = x ∷ replicate n x

-- What `snprintf` keeps of a text, in a buffer of `n + 1` bytes.
unfoldable pub first_bytes : ℕ → Text → Text
first_bytes zero s = []
first_bytes (suc n) [] = []
first_bytes (suc n) (c ∷ s) = c ∷ first_bytes n s

-- `strchr(text, ':') != NULL`.
unfoldable pub has_colon : Text → Bool
has_colon [] = false
has_colon (c ∷ s) = c == b':' || has_colon s
