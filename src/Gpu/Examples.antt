-- ===== src/Gpu/Examples.antt =====
-- A small driver of CUDA, and what the hosts start from.
use leanexe.Base.{ℕ, ◌+◌, ◌*◌, true, false, none, some, List, [], ◌∷◌, Text, codes, length}
use leanexe.Gpu.Table.{Table}
use leanexe.Gpu.Cuda.Driver.{Driver, CudaWorld}

-- Every call succeeds; a call's value is 256 times the number of calls so far, itself included.
abbrev pub toy_driver : Driver
toy_driver = record {
  result = λ calls c. 0;
  value = λ calls c. 256 * (length calls + 1);
  name = λ calls. codes "toy";
  bytes = λ calls buffer n. [];
  error_text = λ result. none;
}

-- No files, and a line of input for each text.
abbrev pub started : Text → CudaWorld
started stdin = record {
  calls = [];
  entries = [];
  out = [];
  reports = [];
  sources = λ path. none;
  broken = λ path. false;
  sinks = λ path. some (record { takes = 1000; closes = true });
  written = [];
  stdin = stdin;
}

abbrev pub session_input : Text
session_input = codes "words a u64:7\noutput b 1\nread b /tmp/b\nwords a u64:1,2\nfree a\nquit\n"

abbrev pub session_arguments : List Text
session_arguments = codes "cuda-host" ∷ codes "session" ∷ []

abbrev pub three_entries : Table ℕ
three_entries = (codes "a", 1) ∷ (codes "b", 2) ∷ (codes "c", 3) ∷ []
