-- ===== src/Wasm/Parse.antt =====
-- The Wasmtime host's readers of files, hexadecimal bytes and numbers. An allocation in the host's
-- own heap is taken to succeed.
pub mod Agreement
use leanexe.Base.{
  ℕ, ◌*◌, ◌%◌, bit_or, not, none, some, List, [], ◌∷◌, leb, ◌==◌, if◌then◌else◌, Text, length, ◌||◌,
  codes,
}
use leanexe.Base.Decimal.{strtoull}
use leanexe.Base.Run.{pure, ◌>>=◌}
use leanexe.Native.Machine.{Source}
use leanexe.Native.Parse.{hex_nibble, is_empty, comma_items, break_comma, take_exactly}
use leanexe.Wasm.Machine.{Report, M}
use leanexe.Wasm.Outcome.{fail, die}

unfoldable pub read_source : Text → Source → M Text
read_source path f = if not f.seek_end then fail (Report.perror (codes "fseek")) else elim f.tell [
  | none ↦ fail (Report.perror (codes "ftell"))
  | some size ↦
      if not f.seek_set
      then fail (Report.perror (codes "fseek"))
      else elim (take_exactly size f.content) [
        | none ↦
            if f.read_error
            then fail (Report.perror (codes "fread"))
            else fail (Report.named "unexpected end of file: %s" path)
        | some bytes ↦ if f.closes then pure bytes else fail (Report.perror (codes "fclose"))
      ]
]

unfoldable pub read_file : Text → M Text
read_file path w = elim (w.sources path) [
  | none ↦ fail (Report.perror path) w
  | some f ↦ read_source path f w
]

unfoldable pub hex_pairs : Text → M Text
hex_pairs [] = pure []
hex_pairs (c ∷ []) = pure []
hex_pairs (c ∷ d ∷ s) = elim (hex_nibble c) [
  | none ↦ die "invalid hex byte"
  | some high ↦ elim (hex_nibble d) [
    | none ↦ die "invalid hex byte"
    | some low ↦ do bytes ← hex_pairs s; pure (bit_or (high * 16) low ∷ bytes)
  ]
]

unfoldable pub parse_hex : Text → M Text
parse_hex text =
    if length text % 2 == 0
    then hex_pairs text
    else die "hex input must have an even number of digits"

-- `strtoull` leaves nothing. An empty number is 0.
unfoldable pub parse_u64 : Text → M ℕ
parse_u64 text =
    let (value, end) = strtoull text in
    if not (is_empty end) then die "invalid i64 argument" else pure value

unfoldable pub parse_items : List Text → M (List ℕ)
parse_items [] = pure []
parse_items (t ∷ ts) = do value ← parse_u64 t; values ← parse_items ts; pure (value ∷ values)

unfoldable pub parse_u64_list : Text → M (List ℕ)
parse_u64_list [] = pure []
parse_u64_list (c ∷ s) = parse_items (comma_items (c ∷ s))

unfoldable pub read_token : ℕ → Text → M (Text × Text)
read_token size text =
    let (token, rest) = break_comma text in
    if length token == 0 || leb size (length token)
    then die "bad tree description"
    else pure (token, elim rest [ none ↦ [] | some s ↦ s ])
