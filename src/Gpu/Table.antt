-- ===== src/Gpu/Table.antt =====
-- The table of a session, `entries_` and `entryCount_` of tools/cuda-host.c and tools/webgpu-host.c:
-- an entry is its name and what it holds.
pub mod Map
pub mod Tidy
use leanexe.Base.{ℕ, Option, none, some, List, [], ◌∷◌, if◌then◌else◌, Text, text_eq}

abbrev pub Table : Type 0 → Type 0
Table E = List (Text × E)

abbrev pub max_entries : ℕ
max_entries = 4096

module _ {E : Type 0} where
  unfoldable pub find_entry : Text → Table E → Option E
  find_entry name [] = none
  find_entry name ((key, held) ∷ t) = if text_eq key name then some held else find_entry name t

  -- The write of `*entry`, at the first entry of the name.
  unfoldable pub set_entry : Text → E → Table E → Table E
  set_entry name held [] = []
  set_entry name held ((key, old) ∷ t) =
      if text_eq key name then (key, held) ∷ t else (key, old) ∷ set_entry name held t

  -- `&entries_[entryCount_++]`.
  unfoldable pub append_entry : Text → E → Table E → Table E
  append_entry name held [] = (name, held) ∷ []
  append_entry name held (entry ∷ t) = entry ∷ append_entry name held t

  -- The table's last entry in front of the others, or no entry.
  unfoldable pub last_first : Table E → Table E
  last_first [] = []
  last_first (entry ∷ t) = elim (last_first t) [
    | [] ↦ entry ∷ []
    | last ∷ rest ↦ last ∷ entry ∷ rest
  ]

  -- `*entry = entries_[--entryCount_]`.
  unfoldable pub free_entry : Text → Table E → Table E
  free_entry name [] = []
  free_entry name ((key, held) ∷ t) =
      if text_eq key name then last_first t else (key, held) ∷ free_entry name t
