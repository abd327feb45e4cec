-- ===== src/Wasm/Script.antt =====
-- The script and session modes of the Wasmtime host: commands read from standard input, one on a
-- line, over the variables `ids` and `vars`, the arguments gathered and the results of the last call.
use Prim.Native.String.{String}
use leanexe.Base.{
  ℕ, ◌+◌, ◌-◌, Bool, false, Option, none, some, List, [], ◌∷◌, ◌++◌, ltb, leb, if◌then◌else◌, Text,
  starts_with, drop, codes, u64_mod,
}
use leanexe.Base.Lines.{strtok}
use leanexe.Base.Decimal.{decimal}
use leanexe.Base.Run.{pure, ◌>>=◌, ◌>>◌}
use leanexe.Native.Show.{bytes_at, hex_text}
use leanexe.Wasm.Machine.{Val, M, print}
use leanexe.Wasm.Outcome.{die}
use leanexe.Wasm.Parse.{parse_u64}
use leanexe.Wasm.Start.{val_at}
use leanexe.Wasm.Memory.{require_memory, check_range}

-- The local variables of `command_script`.
pub record Script : Type 0 where
  pub ids : ℕ → ℕ
  pub vars : ℕ → ℕ
  pub args : List Val
  pub results : List Val
  pub nresults : ℕ
  pub called : Bool

abbrev pub start : Script
start = record {
  ids = λ i. 0;
  vars = λ i. 0;
  args = [];
  results = [];
  nresults = 0;
  called = false;
}

unfoldable pub checked_add_u64 : ℕ → ℕ → M ℕ
checked_add_u64 left right =
    if ltb (u64_mod - 1 - left) right then die "u64 addition overflow" else pure (left + right)

-- `if (index >= limit) die(message)`, and a value otherwise.
unfoldable pub bounded : ℕ → ℕ → String → ℕ → M ℕ
bounded index limit message value = if leb limit index then die message else pure value

unfoldable pub parse_index : Text → String → M ℕ
parse_index text message = do index ← parse_u64 text; bounded index 4096 message index

abbrev pub allocation_id : Text → M ℕ
allocation_id text = parse_index text "allocation id is too large"

unfoldable pub resolve_script_value : Script → Text → M ℕ
resolve_script_value s text =
    if starts_with text (codes "result:")
    then (do
      index ← parse_u64 (drop 7 text)
      bounded index s.nresults "result index is outside result slots" (val_at s.results index).bits)
    else if starts_with text (codes "u64:")
    then (do index ← parse_index (drop 4 text) "u64 variable id is too large"; pure (s.vars index))
    else parse_u64 text

unfoldable pub print_memory_range : ℕ → ℕ → M (Unit {0})
print_memory_range ptr len = do
  require_memory "missing memory export"
  check_range ptr len "memory read is outside memory"
  print (codes "memory " ++ (decimal ptr ++ (codes " " ++ (decimal len ++ codes " "))))
  λ w. print (hex_text (bytes_at len w.store.memory ptr)) w
  print (codes "\n")

-- `strtok(NULL, "")`: the rest of the line, if there is one.
unfoldable pub rest_of : Text → Option Text
rest_of [] = none
rest_of (c ∷ s) = some (c ∷ s)

-- The next token, the next two, or the next three; or `die`.
unfoldable pub tokens1 : String → Text → (Text → M Script) → M Script
tokens1 message line k = let (a, line) = strtok line in elim a [ none ↦ die message | some a ↦ k a ]

unfoldable pub tokens2 : String → Text → (Text → Text → M Script) → M Script
tokens2 message line k =
    let (a, line) = strtok line in
    tokens1 message line λ b. elim a [ none ↦ die message | some a ↦ k a b ]

unfoldable pub tokens3 : String → Text → (Text → Text → Text → M Script) → M Script
tokens3 message line k =
    let (a, line) = strtok line in
    tokens2 message line λ b c. elim a [ none ↦ die message | some a ↦ k a b c ]

-- The next token and the rest of the line.
unfoldable pub token_and_rest : String → Text → (Text → Text → M Script) → M Script
token_and_rest message line k =
    let (a, line) = strtok line in
    elim a [
      | none ↦ die message
      | some a ↦ elim (rest_of line) [ none ↦ die message | some path ↦ k a path ]
    ]

unfoldable pub require : Bool → String → M (Unit {0})
require b message = if b then pure tt else die message
