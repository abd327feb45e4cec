-- ===== src/Native/Machine.antt =====
-- The state of the native host's process, the translated module that it is linked with
-- (tools/native-host.h), and the ways in which the host ends.
use Prim.Native.String.{String}
use leanexe.Base.{
  ℕ, Bool, Option, none, some, List, [], ◌∷◌, ◌++◌, ◌==◌, if◌then◌else◌, Text, text_eq,
}
use leanexe.Base.Run.{ok, exited, Cmd}

-- What a call of the module may change: `lx_status`, `lx_pages`, the bytes of `lx_mem`, and the
-- module's globals by number.
pub record Store : Type 0 where
  pub status : ℕ
  pub pages : ℕ
  pub memory : ℕ → ℕ
  pub globals : ℕ → ℕ

-- `lx_export`. A call gets the bits of its arguments and gives those of its results.
pub record Export : Type 0 where
  pub name : Text
  pub params : Text
  pub results : Text
  pub call : List ℕ → Store → Store × List ℕ

-- `lx_global_export`: `value` is the number of the global.
pub record GlobalExport : Type 0 where
  pub name : Text
  pub value : ℕ

-- The translated module, which the build generates.
pub record Module : Type 0 where
  pub exports : List Export
  pub global_exports : List GlobalExport
  pub init : Store → Store

-- A line on standard error. `perror` carries the prefix that the C library prints before its
-- description of the error, `named` the text that stands for `%s`.
pub data Report : Type 0 where
  line : String → Report
  named : String → Text → Report
  perror : Text → Report

-- A file as the C library's calls answer for it: `fseek` to the end, `ftell`, `fseek` back, the bytes
-- that `fread` finds, `ferror` after it, and `fclose`.
pub record Source : Type 0 where
  pub seek_end : Bool
  pub tell : Option ℕ
  pub seek_set : Bool
  pub content : Text
  pub read_error : Bool
  pub closes : Bool

-- A file opened for writing: the number of whole elements that `fwrite` takes, and `fclose`.
pub record Sink : Type 0 where
  pub takes : ℕ
  pub closes : Bool

pub record World : Type 0 where
  pub store : Store
  pub out : Text
  pub reports : List Report
  pub sources : Text → Option Source
  pub sinks : Text → Option Sink
  pub written : List (Text × Text)

abbrev pub M : Type 0 → Type 0
M A = Cmd World A

-- A report and `exit(code)`.
unfoldable pub fail : {A : Type 0} → ℕ → Report → M A
fail code r w = exited code (record w { reports = w.reports ++ r ∷ [] })

unfoldable pub die : {A : Type 0} → String → M A
die message = fail 1 (Report.line message)

-- `printf` of a text.
unfoldable pub print : Text → M (Unit {0})
print t w = ok tt (record w { out = w.out ++ t })

unfoldable pub trap_message : ℕ → String
trap_message code =
    if code == 1
    then "wasm `unreachable` instruction executed"
    else if code == 2
    then "wasm trap: out of bounds memory access"
    else if code == 3
    then "wasm trap: integer divide by zero"
    else "wasm trap: unknown code"

unfoldable pub search_exports : Text → List Export → Option Export
search_exports name [] = none
search_exports name (e ∷ es) = if text_eq e.name name then some e else search_exports name es

unfoldable pub find_export : Module → Text → Option Export
find_export m name = search_exports name m.exports

unfoldable pub host_get_export : Module → Text → M Export
host_get_export m name w = elim (find_export m name) [
  | none ↦ fail 1 (Report.named "missing export: %s" name) w
  | some e ↦ ok e w
]

-- Clears `lx_status`, calls `e`, and ends with status 2 after a trap.
unfoldable pub host_invoke : Export → List ℕ → M (List ℕ)
host_invoke e args w =
    let (s, results) = e.call args (record (w.store) { status = 0 }) in
    let w' = record w { store = s } in
    if s.status == 0 then ok results w' else fail 2 (Report.line (trap_message s.status)) w'
