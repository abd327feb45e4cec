-- ===== src/Gpu/Machine.antt =====
-- The state of a GPU host's process. `C` is a call of the GPU interface and `E` what an entry of the
-- session's table holds; `calls` has the latest call first.
pub mod Triples
pub mod Totals
use Prim.Native.String.{String}
use leanexe.Base.{
  ℕ, Bool, ◌||◌, not, Option, none, some, List, [], ◌∷◌, ◌++◌, ltb, ◌==◌, if◌then◌else◌, Text,
  length,
}
use leanexe.Base.Run.{ok, exited, Cmd, and_then}
use leanexe.Native.Machine.{Source, Sink}
use leanexe.Gpu.Table.{Table, max_entries, find_entry, set_entry, append_entry}

-- A line on standard error; `failed` names a call and gives the description of its error.
pub data Report : Type 0 where
  line : String → Report
  named : String → Text → Report
  failed : String → Text → Report
  gpu_error : ℕ → Text → Report

-- A file is read by `fread` until it gives nothing; `broken` is what `ferror` answers then.
pub record World (C E : Type 0) : Type 0 where
  pub calls : List C
  pub entries : Table E
  pub out : Text
  pub reports : List Report
  pub sources : Text → Option Source
  pub broken : Text → Bool
  pub sinks : Text → Option Sink
  pub written : List (Text × Text)
  pub stdin : Text

abbrev pub M : Type 0 → Type 0 → Type 0 → Type 0
M C E A = Cmd (World C E) A

module _ {C E A : Type 0} where
  unfoldable pub pure : A → M C E A
  pure a w = ok a w

module _ {C E A B : Type 0} where
  infixl 5 ◌>>=◌ ◌>>◌
  -- A command, then one that its value gives, unless the process has ended.
  unfoldable pub ◌>>=◌ : M C E A → (A → M C E B) → M C E B
  ◌>>=◌ m k w = and_then (m w) k

  abbrev pub ◌>>◌ : M C E A → M C E B → M C E B
  m >> n = m >>= λ _. n

module _ {C E : Type 0} where
  -- A message on standard error and `exit(1)`.
  unfoldable pub fail : {A : Type 0} → Report → M C E A
  fail r w = exited 1 (record w { reports = w.reports ++ r ∷ [] })

  unfoldable pub die : {A : Type 0} → String → M C E A
  die message = fail (Report.line message)

  unfoldable pub print : Text → M C E (Unit {0})
  print t w = ok tt (record w { out = w.out ++ t })

  unfoldable pub set_entries : Table E → M C E (Unit {0})
  set_entries t w = ok tt (record w { entries = t })

  unfoldable pub require : Bool → Report → M C E (Unit {0})
  require b r w = if b then ok tt w else fail r w

  -- `find_entry`: what follows where it gives NULL, and where it gives an entry.
  unfoldable pub find_then : {A : Type 0} → Text → M C E A → (E → M C E A) → M C E A
  find_then name missing found w = elim (find_entry name w.entries) [
    | none ↦ missing w
    | some held ↦ found held w
  ]

  -- `&entries_[entryCount_++]`, with a name and nothing else.
  unfoldable pub add_entry : Text → E → M C E (Unit {0})
  add_entry name held w =
      if length w.entries == max_entries
      then die "too many names" w
      else set_entries (append_entry name held w.entries) w

  -- `*entry` is written.
  unfoldable pub hold : Text → E → M C E (Unit {0})
  hold name held w = set_entries (set_entry name held w.entries) w

  -- `fopen`, `fwrite` and `fclose` of a file that a command writes.
  unfoldable pub write_file : Text → Text → M C E (Unit {0})
  write_file path bytes w = elim (w.sinks path) [
    | none ↦ fail (Report.named "cannot write %s" path) w
    | some sink ↦
        if ltb sink.takes (length bytes) || not sink.closes
        then fail (Report.named "cannot write %s" path) w
        else ok tt (record w { written = w.written ++ (path, bytes) ∷ [] })
  ]
