-- ===== src/Wasm/Outcome.antt =====
-- The ways in which the Wasmtime host ends, and the outcome of a call of the guest.
pub mod Records
use Prim.Native.String.{String}
use leanexe.Base.{
  ℕ, ◌%◌, ◌^◌, Bool, true, false, ◌&&◌, not, Option, none, some, [], ◌∷◌, ◌++◌, ◌==◌, if◌then◌else◌,
  Text, codes, List,
}
use leanexe.Base.Decimal.{decimal}
use leanexe.Base.Run.{ok, exited, pure, ◌>>=◌, ◌>>◌}
use leanexe.Wasm.Machine.{
  HostError, Report, World, M, Func, Val, Engine, CallResult, reported, said,
}

-- Whether `finish_host` ends the control output with `error`.
unfoldable pub records_error : ℕ → World → Bool
records_error status w =
    not (status == 0)
    && (not w.outcome_recorded && (w.options.wasi && (w.options.control_records && w.control_open)))

-- The end of the control output, and the exit.
unfoldable pub close_control : {A : Type 0} → ℕ → M A
close_control status w =
    if not w.control_open
    then exited status w
    else if not w.control_closes
    then exited 1 (
        reported (Report.perror (codes "cannot finish control output"))
          (record w { control_open = false }))
    else if w.control_error
    then exited 1
        (reported (Report.line "cannot write control output") (record w { control_open = false }))
    else exited status (record w { control_open = false })

unfoldable pub finish_host : {A : Type 0} → ℕ → M A
finish_host status w =
    close_control status (if records_error status w then said (codes "error\n") w else w)

unfoldable pub fail : {A : Type 0} → Report → M A
fail r w = finish_host 1 (reported r w)

unfoldable pub die : {A : Type 0} → String → M A
die text = fail (Report.line text)

-- `print_trap`, when there is a trap.
unfoldable pub print_trap : Option Text → World → World
print_trap none w = w
print_trap (some text) w = reported (Report.message text) w

-- The end after the guest's `proc_exit` in WASI mode.
unfoldable pub guest_exit : {A : Type 0} → ℕ → M A
guest_exit raw w =
    let w' =
      if w.options.control_records
      then said (codes "wasi-exit " ++ (decimal raw ++ codes "\n")) w
      else w in
    finish_host (raw % 256) (record w' { outcome_recorded = true })

unfoldable pub error_end : {A : Type 0} → HostError → Option Text → M A
error_end e trap w = finish_host 1 (print_trap trap (reported (Report.message e.message) w))

unfoldable pub error_outcome : {A : Type 0} → HostError → Option Text → M A
error_outcome e trap w = elim e.exit_status [
  | none ↦ error_end e trap w
  | some status ↦ if w.options.wasi then guest_exit (status % 2 ^ 32) w else error_end e trap w
]

unfoldable pub trap_outcome : {A : Type 0} → Text → ℕ → M A
trap_outcome text trap_status w =
    let w' = reported (Report.message text) w in
    finish_host trap_status (
      if (trap_status == 2) && (w.options.wasi && w.options.control_records)
      then record (said (codes "trap\n") w') { outcome_recorded = true }
      else w')

unfoldable pub check_outcome : Option HostError → Option Text → ℕ → M (Unit {0})
check_outcome (some e) trap trap_status = error_outcome e trap
check_outcome none (some text) trap_status = trap_outcome text trap_status
check_outcome none none trap_status = pure tt

unfoldable pub call_func : Func → List Val → ℕ → ℕ → M (List Val)
call_func func args nresults trap_status w =
    let (s, r) = func args nresults w.store in
    (do check_outcome r.error r.trap trap_status; pure r.results) (record w { store = s })
