-- ===== src/Gpu/ToyApi.antt =====
-- A small model of wgpu-native that answers each request after three polls.
use leanexe.Base.{
  ◌≡◌, ◌≢◌, ap, ◌+◌, Bool, true, false, none, List, [], ◌∷◌, ltb, if◌then◌else◌, arith, length,
  codes, Text,
}
use leanexe.Gpu.Webgpu.Api.{Status, Api, WebgpuWorld}
use leanexe.Gpu.Webgpu.Ends.{polls, Answers}

abbrev pub answer : Bool → Status
answer early = if early then Status.waiting else Status.done 1

abbrev pub toy_api : Api
toy_api = record {
  handle = λ calls c. length calls + 1;
  error = λ calls c. none;
  status = λ calls. answer (ltb (polls calls) 3);
  info = λ calls. record {
    vendor = none;
    architecture = none;
    device = none;
    description = none;
    backend = 0;
    kind = 0;
  };
  bytes = λ calls buffer n. [];
  rounds = 3;
}

is_waiting : Status → Bool
is_waiting Status.waiting = true
is_waiting s = false

not_early : (early : Bool) → early ≡ false → answer early ≢ Status.waiting
unfolding is_waiting
not_early true e w = absurd (grind (arith, e))
not_early false e w = absurd (let h : false ≡ true = ap is_waiting w in grind (arith, h))

pub toy_api-Answers : Answers toy_api
unfolding Answers
toy_api-Answers calls enough = not_early (ltb (polls calls) 3) (ground (arith, enough))

abbrev pub webgpu_started : Text → WebgpuWorld
webgpu_started stdin = record {
  calls = [];
  entries = [];
  out = [];
  reports = [];
  sources = λ path. none;
  broken = λ path. false;
  sinks = λ path. none;
  written = [];
  stdin = stdin;
}

abbrev pub webgpu_arguments : List Text
webgpu_arguments = codes "webgpu-host" ∷ codes "session" ∷ []
