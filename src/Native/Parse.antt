-- ===== src/Native/Parse.antt =====
-- The host's readers of numbers, hexadecimal bytes, lists, tokens and files. An allocation in the
-- host's own heap is taken to succeed.
pub mod Numbers
pub mod Tokens
pub mod Hex
use leanexe.Base.{
  ℕ, zero, suc, ◌+◌, ◌-◌, ◌*◌, ◌%◌, bit_or, Bool, true, false, ◌&&◌, ◌||◌, not, Option, none, some,
  List, [], ◌∷◌, leb, ◌==◌, if◌then◌else◌, Text, length,
}
use leanexe.Base.Decimal.{strtoull}
use leanexe.Base.Run.{pure, ◌>>=◌}
use leanexe.Native.Machine.{Report, Source, M, fail, die}

-- The value of a hexadecimal digit; `none` where the function calls `die`.
unfoldable pub hex_nibble : ℕ → Option ℕ
hex_nibble c =
    if leb b'0' c && leb c b'9'
    then some (c - b'0')
    else if leb b'a' c && leb c b'f'
    then some (10 + c - b'a')
    else if leb b'A' c && leb c b'F'
    then some (10 + c - b'A')
    else none

-- The loop over the digits, two in a round; the text has even length.
unfoldable pub hex_pairs : Text → M Text
hex_pairs [] = pure []
hex_pairs (c ∷ []) = pure []
hex_pairs (c ∷ d ∷ s) = elim (hex_nibble c) [
  | none ↦ die "invalid hex byte"
  | some high ↦ elim (hex_nibble d) [
    | none ↦ die "invalid hex byte"
    | some low ↦ do bytes ← hex_pairs s; pure (bit_or (high * 16) low ∷ bytes)
  ]
]

unfoldable pub parse_hex : Text → M Text
parse_hex text =
    if length text % 2 == 0
    then hex_pairs text
    else die "hex input must have an even number of digits"

unfoldable pub is_empty : Text → Bool
is_empty [] = true
is_empty (c ∷ s) = false

-- The whole text is a number: `strtoull` reads something and leaves nothing.
unfoldable pub host_parse_u64 : Text → M ℕ
host_parse_u64 text =
    let (value, end) = strtoull text in
    if length end == length text || not (is_empty end)
    then die "invalid i64 argument"
    else pure value

-- `strchr(text, ',')`: the text before the first comma, and what stands behind it, if there is one.
unfoldable pub break_comma : Text → Text × Option Text
break_comma [] = ([], none)
break_comma (c ∷ s) =
    let (token, rest) = break_comma s in if c == b',' then ([], some s) else (c ∷ token, rest)

-- The parts between the commas; there is one more of them than there are commas.
unfoldable pub comma_items : Text → List Text
comma_items [] = [] ∷ []
comma_items (c ∷ s) =
    if c == b','
    then [] ∷ comma_items s
    else elim (comma_items s) [ [] ↦ (c ∷ []) ∷ [] | item ∷ items ↦ (c ∷ item) ∷ items ]

unfoldable pub parse_items : List Text → M (List ℕ)
parse_items [] = pure []
parse_items (t ∷ ts) = do value ← host_parse_u64 t; values ← parse_items ts; pure (value ∷ values)

unfoldable pub parse_u64_list : Text → M (List ℕ)
parse_u64_list [] = pure []
parse_u64_list (c ∷ s) = parse_items (comma_items (c ∷ s))

-- The token before the next comma and the text behind that comma; `size` is the room for the token
-- and its zero byte.
unfoldable pub read_token : ℕ → Text → M (Text × Text)
read_token size text =
    let (token, rest) = break_comma text in
    if length token == 0 || leb size (length token)
    then die "bad tree description"
    else pure (token, elim rest [ none ↦ [] | some s ↦ s ])

-- The bytes of a file. `fread` reads `size` bytes, or fewer where the file ends before.
unfoldable pub take_exactly : ℕ → Text → Option Text
take_exactly zero s = some []
take_exactly (suc n) [] = none
take_exactly (suc n) (c ∷ s) = elim (take_exactly n s) [ none ↦ none | some t ↦ some (c ∷ t) ]

unfoldable pub read_source : Source → M Text
read_source f =
    if not f.seek_end
    then fail 1 (Report.perror (b'f' ∷ b's' ∷ b'e' ∷ b'e' ∷ b'k' ∷ []))
    else elim f.tell [
      | none ↦ fail 1 (Report.perror (b'f' ∷ b't' ∷ b'e' ∷ b'l' ∷ b'l' ∷ []))
      | some size ↦
          if not f.seek_set
          then fail 1 (Report.perror (b'f' ∷ b's' ∷ b'e' ∷ b'e' ∷ b'k' ∷ []))
          else elim (take_exactly size f.content) [
            | none ↦ fail 1 (Report.perror (b'f' ∷ b'r' ∷ b'e' ∷ b'a' ∷ b'd' ∷ []))
            | some bytes ↦ pure bytes
          ]
    ]

unfoldable pub read_file : Text → M Text
read_file path w = elim (w.sources path) [
  | none ↦ fail 1 (Report.perror path) w
  | some f ↦ read_source f w
]
