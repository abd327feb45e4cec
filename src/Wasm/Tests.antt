-- ===== src/Wasm/Tests.antt =====
-- The theorems about the Wasmtime host at concrete inputs, and runs of its functions.
use leanexe.Base.{◌≡◌, ℕ, refl, true, false, none, some, [], ◌∷◌, codes}
use leanexe.Base.Run.{ok}
use leanexe.Native.Show.{object_magic}
use leanexe.Native.Memory.Blocks.{put_words}
use leanexe.Wasm.Machine.{World, HostError, HostOptions}
use leanexe.Wasm.Outcome.{check_outcome}
use leanexe.Wasm.Outcome.Records.{ending, EndsAs, check_outcome-EndsAs}
use leanexe.Wasm.Walk.{print_u64_chain, print_u64_tree, print_records}
use leanexe.Wasm.Walk.Prints.{WholeOrNothing}
use leanexe.Wasm.Walk.Complete.{print_u64_chain-WholeOrNothing, print_u64_tree-WholeOrNothing}
use leanexe.Wasm.Walk.CompleteRecords.{print_records-WholeOrNothing}
use leanexe.Wasm.Parse.{parse_u64}
use leanexe.Wasm.Parse.Agreement.{parse_u64-host_parse_u64}
use leanexe.Native.Examples.{fresh, number_run}

abbrev plain_options : HostOptions
plain_options = record {
  wasi = true;
  command = false;
  control_records = true;
  stdin_file = none;
  stdout_file = none;
  stderr_file = none;
  control_file = some (codes "control");
}

-- One record of width 2 and mask 2 at address 48, the list of 5; one of width 3 and mask 5 at 176, a
-- node of the key 7; and no count in the header at 304.
abbrev words : ℕ → ℕ
words =
    put_words 0 (object_magic ∷ 1 ∷ 0 ∷ 1 ∷ 2 ∷ 2 ∷ 5 ∷ 0 ∷ [])
      (put_words 128 (object_magic ∷ 1 ∷ 0 ∷ 1 ∷ 3 ∷ 5 ∷ 0 ∷ 7 ∷ 0 ∷ []) (λ _. 0))

abbrev started : World
started = record {
  options = plain_options;
  store = record { size = 65536; memory = words; globals = λ _. 0 };
  exports = [];
  has_memory = true;
  alloc = none;
  control = [];
  control_open = true;
  control_error = false;
  control_closes = true;
  control_flushes = true;
  owns_control_output = true;
  outcome_recorded = false;
  reports = [];
  sources = λ _. none;
  sinks = λ _. none;
  written = [];
  stdin = [];
  stdin_error = false;
  clock = λ i. i;
  ticks = 0;
}

abbrev guest_exited : HostError
guest_exited = record { message = codes "exit"; exit_status = some 300 }

check_outcome-EndsAs_example :
    EndsAs
      (ending (some guest_exited) none)
      started
      (check_outcome (some guest_exited) none 2 started)
check_outcome-EndsAs_example =
    check_outcome-EndsAs (some guest_exited) none started (refl, refl, refl) (refl, refl, refl)

print_u64_chain-WholeOrNothing_example : WholeOrNothing (print_u64_chain 48) started
print_u64_chain-WholeOrNothing_example = print_u64_chain-WholeOrNothing 48 started

print_u64_tree-WholeOrNothing_example : WholeOrNothing (print_u64_tree 176) started
print_u64_tree-WholeOrNothing_example = print_u64_tree-WholeOrNothing 176 started

print_records-WholeOrNothing_example : WholeOrNothing (print_records 304) started
print_records-WholeOrNothing_example = print_records-WholeOrNothing 304 started

parse_u64-host_parse_u64_example : parse_u64 (codes "42") started ≡ ok 42 started
parse_u64-host_parse_u64_example =
    parse_u64-host_parse_u64 (codes "42") 42 fresh fresh started number_run
