-- ===== src/Wasm/Main.antt =====
-- The options, the modes and `main` of the Wasmtime host.
use leanexe.Base.{
  Bool, true, false, ◌&&◌, ◌||◌, not, Option, none, some, List, [], ◌∷◌, ◌++◌, if◌then◌else◌, Text,
  text_eq, starts_with, codes, sub64,
}
use leanexe.Base.Decimal.{decimal}
use leanexe.Base.Run.{ok, pure, ◌>>=◌, ◌>>◌}
use leanexe.Wasm.Machine.{Engine, HostOptions, Report, M, print, reported, now_ns}
use leanexe.Wasm.Outcome.{die, fail, finish_host, call_func}
use leanexe.Wasm.Start.{init_runtime, get_func}
use leanexe.Wasm.Call.{call_export, print_stats, bench_export}
use leanexe.Wasm.Checks.{
  command_release_reuse, command_free_alias, command_temp_byte_call, command_temp_array_call,
  command_noarg_temp_reuse, command_allocator_grows,
}
use leanexe.Wasm.ScriptLoop.{command_script}

-- The text of the usage message is cut to its first words.
unfoldable pub usage : {A : Type 0} → M A
usage = fail (Report.line "usage: wasmtime-host [options] <mode> <module.wasm> [arguments]")

unfoldable pub report_usage : {A : Type 0} → Report → M A
report_usage r w = usage (reported r w)

-- The options with the path of the option `option` set, when it is one with a path.
unfoldable pub set_path : Text → Text → HostOptions → Option HostOptions
set_path option path o =
    if text_eq option (codes "--stdin-file")
    then some (record o { stdin_file = some path })
    else if text_eq option (codes "--stdout-file")
    then some (record o { stdout_file = some path })
    else if text_eq option (codes "--stderr-file")
    then some (record o { stderr_file = some path })
    else if text_eq option (codes "--control-file")
    then some (record o { control_file = some path })
    else none

unfoldable pub known_option : Text → Bool
known_option option =
    text_eq option (codes "--stdin-file")
    || (text_eq option (codes "--stdout-file")
        || (text_eq option (codes "--stderr-file") || text_eq option (codes "--control-file")))

unfoldable pub missing_path : {A : Type 0} → Text → M A
missing_path option =
    if known_option option
    then report_usage (Report.named "missing path for %s" option)
    else report_usage (Report.named "unknown host option: %s" option)

unfoldable pub take_path : Text → Text → M (Unit {0})
take_path option path w = elim (set_path option path w.options) [
  | none ↦ report_usage (Report.named "unknown host option: %s" option) w
  | some o ↦ ok tt (record w { options = o })
]

unfoldable pub set_wasi : M (Unit {0})
set_wasi w = ok tt (record w { options = record (w.options) { wasi = true } })

-- The loop over the options: what is left is the mode and its arguments.
unfoldable pub parse_flags : List Text → M (List Text)
parse_flags [] = pure []
parse_flags (option ∷ []) =
    if not (starts_with option (codes "--"))
    then pure (option ∷ [])
    else if text_eq option (codes "--")
    then pure []
    else if text_eq option (codes "--wasi")
    then (do set_wasi; pure [])
    else missing_path option
parse_flags (option ∷ path ∷ argv) =
    if not (starts_with option (codes "--"))
    then pure (option ∷ path ∷ argv)
    else if text_eq option (codes "--")
    then pure (path ∷ argv)
    else if text_eq option (codes "--wasi")
    then (do set_wasi; parse_flags (path ∷ argv))
    else (do take_path option path; parse_flags argv)

unfoldable pub is_none : Option Text → Bool
is_none none = true
is_none (some t) = false

-- The options after the mode is known.
unfoldable pub with_mode : Text → HostOptions → HostOptions
with_mode mode o =
    let command = text_eq mode (codes "run") in
    record o {
      command = command;
      wasi = command || o.wasi;
      control_records = not command || not (is_none o.control_file);
    }

unfoldable pub check_options : Text → M (Unit {0})
check_options mode w =
    let o = w.options in
    if not o.wasi && not (is_none o.stdin_file && (is_none o.stdout_file && is_none o.stderr_file))
    then die "guest stream options require --wasi or run" w
    else if o.wasi && (not o.command && (is_none o.control_file && is_none o.stdout_file))
    then die "WASI callable modes require --control-file or --stdout-file" w
    else if o.wasi
        && (is_none o.stdin_file
            && (text_eq mode (codes "script") || text_eq mode (codes "session")))
    then die "WASI script/session requires --stdin-file for guest input" w
    else ok tt w

-- `control_output` becomes the file that is opened, or NULL before the failure is reported.
unfoldable pub open_control : Option Text → M (Unit {0})
open_control none w = ok tt w
open_control (some path) w = elim (w.sinks path) [
  | none ↦ fail (Report.perror path) (record w { control_open = false })
  | some sink ↦ ok tt (record w { owns_control_output = true })
]

unfoldable pub check_mode : List Text → M (Text × List Text)
check_mode [] = usage
check_mode (mode ∷ argv) = do
  λ w. check_options mode (record w {
    options = record (with_mode mode w.options) { control_records = w.options.control_records };
  })
  λ w. ok tt (record w { options = with_mode mode w.options })
  λ w. open_control w.options.control_file w
  pure (mode, argv)

unfoldable pub parse_options : List Text → M (Text × List Text)
parse_options argv = do rest ← parse_flags argv; check_mode rest

unfoldable pub run_start : Engine → Text → M (Unit {0})
run_start g path = do
  init_runtime g path
  start ← get_func (codes "_start")
  results ← call_func start [] 0 2
  λ w. if w.options.control_records then print (codes "return\n") w else ok tt w

unfoldable pub bench : Engine → Text → Text → Text → Text → Text → List Text → M (Unit {0})
bench g path seconds max func_name result_kind argv = do
  before ← now_ns
  init_runtime g path
  after ← now_ns
  bench_export g seconds max func_name result_kind argv
  print (codes "init " ++ (decimal (sub64 after before) ++ codes "\n"))

-- The modes whose arguments start with a function and a result kind.
unfoldable pub call_mode : Engine → Bool → Text → List Text → M (Unit {0})
call_mode g stats path (func_name ∷ result_kind ∷ argv) = do
  init_runtime g path
  call_export func_name result_kind argv
  (if stats then print_stats else pure tt)
call_mode g stats path [] = usage
call_mode g stats path (func_name ∷ []) = usage

unfoldable pub bench_mode : Engine → Text → List Text → M (Unit {0})
bench_mode g path (seconds ∷ max ∷ func_name ∷ result_kind ∷ argv) =
    bench g path seconds max func_name result_kind argv
bench_mode g path argv = usage

unfoldable pub start_then : Engine → Text → M (Unit {0}) → M (Unit {0})
start_then g path command = do init_runtime g path; command

unfoldable pub run_mode : Engine → Text → Text → List Text → M (Unit {0})
run_mode g mode path argv =
    if text_eq mode (codes "run")
    then elim argv [ [] ↦ run_start g path | arg ∷ more ↦ usage ]
    else if text_eq mode (codes "call")
    then call_mode g false path argv
    else if text_eq mode (codes "call-stats")
    then call_mode g true path argv
    else if text_eq mode (codes "bench")
    then bench_mode g path argv
    else if text_eq mode (codes "release-reuse")
    then start_then g path (command_release_reuse argv)
    else if text_eq mode (codes "free-alias")
    then start_then g path (command_free_alias argv)
    else if text_eq mode (codes "temp-byte-call")
    then start_then g path (command_temp_byte_call argv)
    else if text_eq mode (codes "temp-array-call")
    then start_then g path (command_temp_array_call argv)
    else if text_eq mode (codes "noarg-temp-reuse")
    then start_then g path (command_noarg_temp_reuse argv)
    else if text_eq mode (codes "allocator-grows")
    then start_then g path (command_allocator_grows argv)
    else if text_eq mode (codes "script") || text_eq mode (codes "session")
    then start_then g path (command_script argv (text_eq mode (codes "session")))
    else usage

unfoldable pub run_host : Engine → Text × List Text → M (Unit {0})
run_host g (mode, path ∷ argv) = run_mode g mode path argv
run_host g (mode, []) = usage

-- `main`, over `argv` with the program's name first. It never returns: it ends by `finish_host`.
unfoldable pub main : Engine → List Text → M (Unit {0})
main g [] = usage
main g (host ∷ argv) = do rest ← parse_options argv; run_host g rest; finish_host 0
