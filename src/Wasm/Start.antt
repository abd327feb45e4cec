-- ===== src/Wasm/Start.antt =====
-- The start of the Wasmtime host: the WASI configuration, the instance and its exports.
use Prim.Native.String.{String}
use leanexe.Base.{
  ℕ, Bool, true, false, not, Option, none, some, List, [], ◌∷◌, if◌then◌else◌, Text, text_eq, codes,
  get_or,
}
use leanexe.Base.Run.{ok, pure, ◌>>=◌, ◌>>◌}
use leanexe.Wasm.Machine.{Kind, Val, Func, Extern, NamedExtern, CallResult, Engine, Report, M}
use leanexe.Wasm.Outcome.{fail, die, check_outcome, call_func}
use leanexe.Wasm.Parse.{read_file}

-- The path that cannot be opened: the first of the three streams whose file is refused.
unfoldable pub refused : (Text → Bool) → Option Text → Option Text → Option Text
refused accepts none later = later
refused accepts (some path) later = if accepts path then later else some path

unfoldable pub configure_wasi : Engine → M (Unit {0})
configure_wasi g w =
    if not g.wasi_config_created
    then die "failed to create WASI configuration" w
    else elim (refused g.set_stdin_file w.options.stdin_file (
        refused g.set_stdout_file w.options.stdout_file
          (refused g.set_stderr_file w.options.stderr_file none))) [
            | some path ↦ fail (Report.named "cannot open WASI stream file: %s" path) w
            | none ↦ ok tt w
          ]

-- `wasmtime_instance_export_get`.
unfoldable pub search_exports : Text → List NamedExtern → Option Extern
search_exports name [] = none
search_exports name (e ∷ es) = if text_eq e.name name then some e.item else search_exports name es

abbrev pub no_result : CallResult
no_result = record { error = none; trap = none; results = [] }

-- `die` when a step of the set-up gave NULL.
unfoldable pub created : Bool → String → M (Unit {0})
created b message = if b then pure tt else die message

unfoldable pub instantiate : Engine → Text → Bool → M (Unit {0})
instantiate g bytes wasi w =
    let (s, r) = g.instantiate bytes wasi w.store in
    check_outcome r.error r.trap 1 (record w { store = s })

unfoldable pub instantiate_wasi : Engine → Text → M (Unit {0})
instantiate_wasi g bytes = do
  configure_wasi g
  check_outcome g.set_wasi none 1
  created g.linker_created "failed to create Wasmtime linker"
  check_outcome g.define_wasi none 1
  instantiate g bytes true

unfoldable pub bind_memory : Option Extern → M (Unit {0})
bind_memory none w = ok tt w
bind_memory (some Extern.memory) w = ok tt (record w { has_memory = true })
bind_memory (some (Extern.func f)) w = die "export memory is not a memory" w
bind_memory (some (Extern.global i k)) w = die "export memory is not a memory" w
bind_memory (some Extern.table) w = die "export memory is not a memory" w

-- The function that an extern is, or `otherwise`.
unfoldable pub as_func : {A : Type 0} → Extern → A → (Func → A) → A
as_func (Extern.func f) otherwise use_it = use_it f
as_func Extern.memory otherwise use_it = otherwise
as_func (Extern.global i k) otherwise use_it = otherwise
as_func Extern.table otherwise use_it = otherwise

unfoldable pub bind_alloc : Option Extern → M (Unit {0})
bind_alloc none w = ok tt w
bind_alloc (some item) w =
    as_func item (die "export alloc is not a function") (λ f w. ok tt (record w { alloc = some f }))
      w

unfoldable pub run_reset : Option Extern → M (Unit {0})
run_reset none = pure tt
run_reset (some item) =
    as_func item (die "export reset is not a function")
      λ f. do results ← call_func f [] 0 1; pure tt

unfoldable pub init_runtime : Engine → Text → M (Unit {0})
init_runtime g wasm_path = do
  λ w. ok tt (record w { exports = []; has_memory = false; alloc = none })
  bytes ← read_file wasm_path
  created g.config_created "failed to create Wasmtime configuration"
  created g.engine_created "failed to create Wasmtime engine"
  check_outcome (g.compile bytes) none 1
  created g.store_created "failed to create Wasmtime store"
  λ w. (if w.options.wasi then instantiate_wasi g bytes else instantiate g bytes false) w
  λ w. ok tt (record w { exports = g.exports bytes })
  λ w. bind_memory (search_exports (codes "memory") w.exports) w
  λ w. bind_alloc (search_exports (codes "alloc") w.exports) w
  λ w. if w.options.command then ok tt w else run_reset (search_exports (codes "reset") w.exports) w

unfoldable pub get_func : Text → M Func
get_func name w = elim (search_exports name w.exports) [
  | none ↦ fail (Report.named "missing export: %s" name) w
  | some item ↦ as_func item (fail (Report.named "export is not a function: %s" name)) pure w
]

abbrev pub i64_val : ℕ → Val
i64_val bits = record { kind = Kind.i64; bits = bits }

abbrev pub val_at : List Val → ℕ → Val
val_at vs i = get_or vs i (i64_val 0)

-- Whether a value is of the kind that is meant.
unfoldable pub is_i64 : Kind → Bool
is_i64 Kind.i64 = true
is_i64 Kind.f64 = false
is_i64 Kind.f32 = false
is_i64 Kind.other = false

unfoldable pub call_i64_func : Func → ℕ → M ℕ
call_i64_func func arg = do
  results ← call_func func (i64_val arg ∷ []) 1 1
  elim (is_i64 (val_at results 0).kind) [
    | true ↦ pure (val_at results 0).bits
    | false ↦ die "expected i64 result"
  ]

unfoldable pub call_void_i64_func : Func → ℕ → M (Unit {0})
call_void_i64_func func arg = do results ← call_func func (i64_val arg ∷ []) 0 1; pure tt

unfoldable pub call_void_func : Func → M (Unit {0})
call_void_func func = do results ← call_func func [] 0 1; pure tt

unfoldable pub call_alloc : ℕ → M ℕ
call_alloc len w = elim w.alloc [
  | none ↦ die "missing alloc export" w
  | some alloc ↦ call_i64_func alloc len w
]

unfoldable pub required_runtime_func : Text → M Func
required_runtime_func name = get_func name

unfoldable pub reset_runtime : M (Unit {0})
reset_runtime = do reset ← required_runtime_func (codes "reset"); call_void_func reset
