-- ===== src/Wasm/Args.antt =====
-- The argument specs of the Wasmtime host.
use leanexe.Base.{
  ℕ, ◌+◌, ◌-◌, true, false, List, [], ◌∷◌, ◌++◌, ltb, ◌==◌, if◌then◌else◌, Text, starts_with,
  length, drop, codes,
}
use leanexe.Base.Run.{pure, ◌>>=◌}
use leanexe.Native.Parse.{is_empty}
use leanexe.Wasm.Machine.{Kind, Val, Report, M}
use leanexe.Wasm.Outcome.{die, fail}
use leanexe.Wasm.Parse.{parse_hex, read_file, parse_u64, parse_u64_list}
use leanexe.Wasm.Start.{i64_val}
use leanexe.Wasm.Alloc.{
  alloc_bytes, alloc_u64_array, alloc_u64_chain, alloc_u64_tree, alloc_records, alloc_u64_file,
}

abbrev pub f64_val : ℕ → Val
f64_val bits = record { kind = Kind.f64; bits = bits }

abbrev pub f32_val : ℕ → Val
f32_val bits = record { kind = Kind.f32; bits = bits }

-- A tree's description must end where the tree ends.
unfoldable pub whole_tree : ℕ × Text → M (List Val)
whole_tree (ptr, rest) =
    if is_empty rest then pure (i64_val ptr ∷ []) else die "bad tree description"

unfoldable pub bytes_arg : Text → M (List Val)
bytes_arg bytes = do ptr ← alloc_bytes bytes; pure (i64_val ptr ∷ i64_val (length bytes) ∷ [])

unfoldable pub f32_arg : ℕ → M (List Val)
f32_arg bits =
    if ltb 0xFFFFFFFF bits then die "f32 bits exceed 32 bits" else pure (f32_val bits ∷ [])

-- The values of the argument `spec`; none for an unknown spec.
unfoldable pub parse_arg : Text → M (List Val)
parse_arg spec =
    if starts_with spec (codes "i64:")
    then (do value ← parse_u64 (drop 4 spec); pure (i64_val value ∷ []))
    else if starts_with spec (codes "f64:")
    then (do bits ← parse_u64 (drop 4 spec); pure (f64_val bits ∷ []))
    else if starts_with spec (codes "f32:")
    then (do bits ← parse_u64 (drop 4 spec); f32_arg bits)
    else if starts_with spec (codes "bytes:")
    then (do bytes ← parse_hex (drop 6 spec); bytes_arg bytes)
    else if starts_with spec (codes "bytes-file:")
    then (do bytes ← read_file (drop 11 spec); bytes_arg bytes)
    else if starts_with spec (codes "file-u64:")
    then (do ptr ← alloc_u64_file (drop 9 spec); pure (i64_val ptr ∷ []))
    else if starts_with spec (codes "array-u64:")
    then (do
      values ← parse_u64_list (drop 10 spec)
      ptr ← alloc_u64_array values
      pure (i64_val ptr ∷ []))
    else if starts_with spec (codes "tree-u64:")
    then (do result ← alloc_u64_tree (length spec + 1) (drop 9 spec); whole_tree result)
    else if starts_with spec (codes "records-u64:")
    then (do result ← alloc_records (length spec + 1) (drop 12 spec); whole_tree result)
    else if starts_with spec (codes "chain-u64:")
    then (do
      values ← parse_u64_list (drop 10 spec)
      ptr ← alloc_u64_chain values
      pure (i64_val ptr ∷ []))
    else pure []

-- The arguments after those of `args`, which is how many slots of `args[256]` are filled.
unfoldable pub place_loop : List Text → List Val → M (List Val)
place_loop [] args = pure args
place_loop (spec ∷ specs) args = if length args == 256 then die "too many arguments" else (do
  parsed ← parse_arg spec
  elim (length parsed == 0) [
    | true ↦ fail (Report.named "unknown argument spec: %s" spec)
    | false ↦
        if ltb (256 - length args) (length parsed)
        then die "too many arguments"
        else place_loop specs (args ++ parsed)
  ])

unfoldable pub place_args : List Text → M (List Val)
place_args argv = place_loop argv []
