-- ===== src/Native/Parse/Numbers.antt =====
-- Numbers and lists of numbers read back from their prints.
use leanexe.Base.{
  ℕ, ◌^◌, ◌<◌, ◌≡◌, refl, ap, ◌∙◌, sym, true, false, List, [], ◌∷◌, ◌++◌, append-nil, arith, length,
  Text, All, ◌==◌, Bool-cases, inl, inr, map, length-append,
}
use leanexe.Base.Decimal.{decimal, strtoull, is_digit, starts_with_digit}
use leanexe.Base.Decimal.RoundTrip.{strtoull-decimal, decimal-length, decimal-IsDigits, IsDigits}
use leanexe.Base.Run.{ok}
use leanexe.Native.Machine.{World}
use leanexe.Native.Memory.Blocks.{Small}
use leanexe.Native.Parse.{host_parse_u64, is_empty, comma_items, parse_items, parse_u64_list}

-- The decimal print of a 64-bit word is read back as that word.
pub host_parse_u64-decimal :
    (n : ℕ) (w : World) → n < 2 ^ 64 → host_parse_u64 (decimal n) w ≡ ok n w
unfolding host_parse_u64 is_empty starts_with_digit
host_parse_u64-decimal n w small =
    let read : strtoull (decimal n) ≡ (n, []) =
      ap strtoull (sym (append-nil (decimal n))) ∙ strtoull-decimal n [] small refl in
    let some_text : (0 == length (decimal n)) ≡ false = ground (arith, decimal-length n) in
    rw (read, some_text)

-- No byte of the text is a comma.
abbrev pub NoComma : Text → Type 0
NoComma = All (λ c. (c == b',') ≡ false)

no_comma : (c : ℕ) → is_digit c ≡ true → (c == b',') ≡ false
unfolding is_digit
no_comma c h = ground arith

pub IsDigits-NoComma : (s : Text) → IsDigits s → NoComma s
IsDigits-NoComma [] _ = tt
IsDigits-NoComma (c ∷ s) (digit, rest) = (no_comma c digit, IsDigits-NoComma s rest)

comma_items-ne-nil_lem : (s : Text) → (t : Text) × (ts : List Text) × (comma_items s ≡ t ∷ ts)
unfolding comma_items
comma_items-ne-nil_lem [] = ([], [], refl)
comma_items-ne-nil_lem (c ∷ s) =
    let (t, ts, e) = comma_items-ne-nil_lem s in
    elim (Bool-cases (c == b',')) [
      | inl comma ↦ ([], comma_items s, rw comma)
      | inr other ↦ (c ∷ t, ts, rw (other, e))
    ]

-- The first item ends at the first comma.
comma_items-append : (t s : Text) → NoComma t → comma_items (t ++ b',' ∷ s) ≡ t ∷ comma_items s
unfolding comma_items
comma_items-append [] s _ = refl
comma_items-append (c ∷ t) s (other, h) = rw (other, comma_items-append t s h)

comma_items_one : (t : Text) → NoComma t → comma_items t ≡ t ∷ []
unfolding comma_items
comma_items_one [] _ = refl
comma_items_one (c ∷ t) (other, h) = rw (other, comma_items_one t h)

-- The words in decimal with commas between them, as an argument `array-u64:` or `chain-u64:` has them.
unfoldable pub comma_text : List ℕ → Text
comma_text [] = []
comma_text (x ∷ []) = decimal x
comma_text (x ∷ y ∷ xs) = decimal x ++ b',' ∷ comma_text (y ∷ xs)

decimal-NoComma : (n : ℕ) → NoComma (decimal n)
decimal-NoComma n = IsDigits-NoComma (decimal n) (decimal-IsDigits n)

comma_items-comma_text :
    (x : ℕ) (xs : List ℕ) → comma_items (comma_text (x ∷ xs)) ≡ map decimal (x ∷ xs)
unfolding comma_text
comma_items-comma_text x [] = comma_items_one (decimal x) (decimal-NoComma x)
comma_items-comma_text x (y ∷ xs) =
    comma_items-append (decimal x) (comma_text (y ∷ xs)) (decimal-NoComma x)
    ∙ ap (λ l. decimal x ∷ l) (comma_items-comma_text y xs)

parse_items-decimal :
    (xs : List ℕ) (w : World) → Small xs → parse_items (map decimal xs) w ≡ ok xs w
unfolding parse_items
parse_items-decimal [] w _ = refl
parse_items-decimal (x ∷ xs) w (small, rest) =
    rw (host_parse_u64-decimal x w small, parse_items-decimal xs w rest)

parse_u64_list-items :
    (t : Text) (w : World) → 0 < length t → parse_u64_list t w ≡ parse_items (comma_items t) w
unfolding parse_u64_list
parse_u64_list-items [] w h = absurd (omega arith)
parse_u64_list-items (c ∷ t) w h = refl

comma_text-length : (x : ℕ) (xs : List ℕ) → 0 < length (comma_text (x ∷ xs))
unfolding comma_text
comma_text-length x [] = decimal-length x
comma_text-length x (y ∷ xs) =
    omega (arith, decimal-length x, length-append (decimal x) (b',' ∷ comma_text (y ∷ xs)))

-- A list of 64-bit words written with commas is read back, and the world is left as it was; the
-- empty text is the empty list.
pub parse_u64_list-comma_text :
    (xs : List ℕ) (w : World) → Small xs → parse_u64_list (comma_text xs) w ≡ ok xs w
parse_u64_list-comma_text [] w _ = unfold parse_u64_list comma_text in refl
parse_u64_list-comma_text (x ∷ xs) w small =
    parse_u64_list-items (comma_text (x ∷ xs)) w (comma_text-length x xs)
    ∙ rw (comma_items-comma_text x xs) (parse_items-decimal (x ∷ xs) w small)
