-- ===== src/Wasm/Outcome/Records.antt =====
-- The outcome of a guest's call in WASI mode: the exit status and the last line of the control
-- output, which `check_outcome` and `finish_host` of tools/wasmtime-host.c produce together.
use mathlib.Core.Path.{subst}
use leanexe.Base.{
  ℕ, ◌%◌, ◌^◌, ◌≡◌, refl, sym, ap, ◌∙◌, Bool, true, false, ◌&&◌, not, Option, none, some, List, [],
  ◌∷◌, ◌++◌, ◌==◌, Option-cases, inl, inr, if◌then◌else◌, Text, codes,
}
use leanexe.Base.Decimal.{decimal}
use leanexe.Base.Run.{Run, ok, exited}
use leanexe.Wasm.Machine.{HostError, World, Report, reported, said}
use leanexe.Wasm.Outcome.{
  records_error, close_control, finish_host, print_trap, guest_exit, error_end, error_outcome,
  trap_outcome, check_outcome,
}

-- The control output takes what is written to it, and can be finished.
abbrev pub Healthy : World → Type 0
Healthy w = (w.control_open ≡ true) × (w.control_closes ≡ true) × (w.control_error ≡ false)

-- Control records are written in WASI mode, and no outcome has been recorded.
abbrev pub Recording : World → Type 0
Recording w =
    (w.options.wasi ≡ true) × (w.options.control_records ≡ true) × (w.outcome_recorded ≡ false)

-- What the control output and the exit status should say of a call's outcome; `none` for a call that
-- returns. An error that is no exit of the guest counts as such even beside a trap.
unfoldable pub ending : Option HostError → Option Text → Option (ℕ × Text)
ending none none = none
ending none (some trap) = some (2, codes "trap\n")
ending (some e) trap = elim e.exit_status [
  | none ↦ some (1, codes "error\n")
  | some status ↦
      some (status % 2 ^ 32 % 256, codes "wasi-exit " ++ (decimal (status % 2 ^ 32) ++ codes "\n"))
]

-- The process has ended with `status`, `line` is the last that the control output got, and nothing
-- else was written to it or to a file.
abbrev pub Ended : ℕ → Text → World → Run World (Unit {0}) → Type 0
Ended status line w r =
    (w' : World) × (r ≡ exited status w')
    × (w'.control ≡ w.control ++ line)
    × (w'.written ≡ w.written)

abbrev pub EndsAs : Option (ℕ × Text) → World → Run World (Unit {0}) → Type 0
EndsAs none w r = r ≡ ok tt w
EndsAs (some (status, line)) w r = Ended status line w r

close_control-Healthy :
    (status : ℕ) (w : World)
    → Healthy w
    → close_control {A = Unit {0}} status w ≡ exited status (record w { control_open = false })
unfolding close_control
close_control-Healthy status w (opened, closes, error) = simp (opened, closes, error)

finish_recorded :
    (status : ℕ) (w : World)
    → Healthy w
    → records_error status w ≡ false
    → finish_host {A = Unit {0}} status w ≡ exited status (record w { control_open = false })
unfolding finish_host
finish_recorded status w healthy e =
    ap (λ b. close_control status (if b then said (codes "error\n") w else w)) e
    ∙ close_control-Healthy status w healthy

finish_error :
    (status : ℕ) (w : World)
    → Healthy w
    → records_error status w ≡ true
    → finish_host {A = Unit {0}} status w
      ≡ exited status (record (said (codes "error\n") w) { control_open = false })
unfolding finish_host
finish_error status w healthy e =
    ap (λ b. close_control status (if b then said (codes "error\n") w else w)) e
    ∙ close_control-Healthy status (said (codes "error\n") w) healthy

and-false : (b : Bool) → (b && false) ≡ false
and-false true = refl
and-false false = refl

done : (status : ℕ) (w : World) → w.outcome_recorded ≡ true → records_error status w ≡ false
unfolding records_error
done status w e =
    ap
      (λ b.
        not (status == 0)
        && (not b && (w.options.wasi && (w.options.control_records && w.control_open))))
      e
    ∙ and-false (not (status == 0))

guest_exit-Ended :
    (raw : ℕ) (w : World)
    → Healthy w
    → Recording w
    → Ended (raw % 256) (codes "wasi-exit " ++ (decimal raw ++ codes "\n")) w (guest_exit raw w)
unfolding guest_exit
guest_exit-Ended raw w healthy (wasi, records, unset) =
    let w' = record (said (codes "wasi-exit " ++ (decimal raw ++ codes "\n")) w) {
      outcome_recorded = true;
    } in
    (
      record w' { control_open = false },
      ap
            (λ b.
              finish_host (raw % 256)
                (record (if b
                  then said (codes "wasi-exit " ++ (decimal raw ++ codes "\n")) w
                  else w) { outcome_recorded = true }))
            records
          ∙ finish_recorded (raw % 256) w' healthy (done (raw % 256) w' refl),
      refl,
      refl,
    )

-- A report leaves the control output, the files and the tests of `finish_host` as they are.
error_recorded :
    (status : ℕ) (w : World)
    → (status == 0) ≡ false
    → w.control_open ≡ true
    → Recording w
    → records_error status w ≡ true
unfolding records_error
error_recorded status w failed opened (wasi, records, unset) =
    simp (failed, opened, wasi, records, unset)

print_trap-same :
    (trap : Option Text) (w : World)
    → (reports : List Report) × (print_trap trap w ≡ record w { reports = reports })
unfolding print_trap
print_trap-same none w = (w.reports, refl)
print_trap-same (some text) w = (w.reports ++ Report.message text ∷ [], refl)

error_end-Ended :
    (e : HostError) (trap : Option Text) (w : World)
    → Healthy w
    → Recording w
    → Ended 1 (codes "error\n") w (error_end e trap w)
unfolding error_end
error_end-Ended e trap w healthy recording =
    let (reports, same) = print_trap-same trap (reported (Report.message e.message) w) in
    let w' = record w { reports = reports } in
    (
      record (said (codes "error\n") w') { control_open = false },
      ap (finish_host 1) same
          ∙ finish_error 1 w' healthy (error_recorded 1 w' refl (healthy.0) recording),
      refl,
      refl,
    )

trap_outcome-Ended :
    (text : Text) (w : World)
    → Healthy w
    → Recording w
    → Ended 2 (codes "trap\n") w (trap_outcome text 2 w)
unfolding trap_outcome
trap_outcome-Ended text w healthy (wasi, records, unset) =
    let w1 = reported (Report.message text) w in
    let w' = record (said (codes "trap\n") w1) { outcome_recorded = true } in
    let both : (w.options.wasi && w.options.control_records) ≡ true = simp (wasi, records) in
    (
      record w' { control_open = false },
      ap
            (λ b.
              finish_host 2
                (if b then record (said (codes "trap\n") w1) { outcome_recorded = true } else w1))
            both
          ∙ finish_recorded 2 w' healthy (done 2 w' refl),
      refl,
      refl,
    )

-- In WASI mode with control records, a call of the guest (`trap_status` 2) that does not return ends
-- the process with the status that its outcome stands for, and the control output gets exactly one
-- further line, which names it: `wasi-exit N` with the exit status N modulo 256, `trap` with 2, and
-- `error` with 1. A call that returns changes nothing. The control output must take what is
-- written, and no outcome must have been recorded before.
pub check_outcome-EndsAs :
    (error : Option HostError) (trap : Option Text) (w : World)
    → Healthy w
    → Recording w
    → EndsAs (ending error trap) w (check_outcome error trap 2 w)
unfolding ending check_outcome error_outcome error_end
check_outcome-EndsAs none none w healthy recording = refl
check_outcome-EndsAs none (some text) w healthy recording =
    trap_outcome-Ended text w healthy recording
check_outcome-EndsAs (some e) trap w healthy recording = elim (Option-cases e.exit_status) [
  | inl no_exit ↦ rw no_exit (error_end-Ended e trap w healthy recording)
  | inr (status, exits) ↦ rw exits (
      subst
        (λ b.
          Ended (status % 2 ^ 32 % 256)
            (codes "wasi-exit " ++ (decimal (status % 2 ^ 32) ++ codes "\n")) w
            (if b then guest_exit (status % 2 ^ 32) w else error_end e trap w))
        (sym (recording.0)) (guest_exit-Ended (status % 2 ^ 32) w healthy recording))
]
