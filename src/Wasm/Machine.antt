-- ===== src/Wasm/Machine.antt =====
-- The state of the Wasmtime host's process, what it takes from Wasmtime, the operating system and
-- the module.
use Prim.Native.String.{String}
use leanexe.Base.{ℕ, suc, Bool, Option, List, [], ◌∷◌, ◌++◌, Text}
use leanexe.Base.Run.{ok, Cmd}
use leanexe.Native.Machine.{Source, Sink}

-- A value's kind (`wasmtime_val_t`), and its bits as the union `of` holds them.
pub data Kind : Type 0 where
  i64 f64 f32 other : Kind

pub record Val : Type 0 where
  pub kind : Kind
  pub bits : ℕ

-- What a guest call may change: the linear memory, its size in bytes, and the rest of the store.
pub record Store : Type 0 where
  pub size : ℕ
  pub memory : ℕ → ℕ
  pub globals : ℕ → ℕ

-- `wasmtime_error_t`: its message, and the exit status (its 32 bits) when the guest called
-- `proc_exit`.
pub record HostError : Type 0 where
  pub message : Text
  pub exit_status : Option ℕ

-- What `wasmtime_func_call` and the instantiation give.
pub record CallResult : Type 0 where
  pub error : Option HostError
  pub trap : Option Text
  pub results : List Val

-- A function of the module: its arguments and the number of results that the caller asks for.
abbrev pub Func : Type 0
Func = List Val → ℕ → Store → Store × CallResult

-- `wasmtime_extern_t`. A global has a number and a kind.
pub data Extern : Type 0 where
  memory : Extern
  func : Func → Extern
  global : ℕ → Kind → Extern
  table : Extern

pub record NamedExtern : Type 0 where
  pub name : Text
  pub item : Extern

-- Wasmtime and the C library's `atof`, as their calls answer. `instantiate` gets the module's bytes
-- and whether the linker with WASI is used; `nanoseconds` is `(uint64_t)(atof(text) * 1e9)`.
pub record Engine : Type 0 where
  pub config_created : Bool
  pub engine_created : Bool
  pub compile : Text → Option HostError
  pub store_created : Bool
  pub wasi_config_created : Bool
  pub set_stdin_file : Text → Bool
  pub set_stdout_file : Text → Bool
  pub set_stderr_file : Text → Bool
  pub set_wasi : Option HostError
  pub linker_created : Bool
  pub define_wasi : Option HostError
  pub instantiate : Text → Bool → Store → Store × CallResult
  pub exports : Text → List NamedExtern
  pub nanoseconds : Text → ℕ

-- A line on standard error.
pub data Report : Type 0 where
  line : String → Report
  named : String → Text → Report
  message : Text → Report
  perror : Text → Report
  mismatch : String → ℕ → ℕ → Report

pub record HostOptions : Type 0 where
  pub wasi : Bool
  pub command : Bool
  pub control_records : Bool
  pub stdin_file : Option Text
  pub stdout_file : Option Text
  pub stderr_file : Option Text
  pub control_file : Option Text

-- The globals of the file and the runtime. `control` is what is written to the control output,
-- `control_open` whether `control_output` is not NULL; `control_error`, `control_closes` and
-- `control_flushes` are what `ferror`, the last `fclose` or `fflush`, and an earlier `fflush` answer.
-- Without an exported memory, `store.size` is what Wasmtime answers for the zeroed handle.
pub record World : Type 0 where
  pub options : HostOptions
  pub store : Store
  pub exports : List NamedExtern
  pub has_memory : Bool
  pub alloc : Option Func
  pub control : Text
  pub control_open : Bool
  pub control_error : Bool
  pub control_closes : Bool
  pub control_flushes : Bool
  pub owns_control_output : Bool
  pub outcome_recorded : Bool
  pub reports : List Report
  pub sources : Text → Option Source
  pub sinks : Text → Option Sink
  pub written : List (Text × Text)
  pub stdin : Text
  pub stdin_error : Bool
  pub clock : ℕ → ℕ
  pub ticks : ℕ

abbrev pub M : Type 0 → Type 0
M A = Cmd World A

-- `fprintf(stderr, ...)`.
abbrev pub reported : Report → World → World
reported r w = record w { reports = w.reports ++ r ∷ [] }

-- `fprintf(control_output, ...)`.
abbrev pub said : Text → World → World
said t w = record w { control = w.control ++ t }

unfoldable pub print : Text → M (Unit {0})
print t w = ok tt (said t w)

-- The next answer of the clock.
unfoldable pub now_ns : M ℕ
now_ns w = ok (w.clock w.ticks) (record w { ticks = suc w.ticks })

abbrev pub set_options : (HostOptions → HostOptions) → M (Unit {0})
set_options f w = ok tt (record w { options = f w.options })
