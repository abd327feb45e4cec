-- ===== src/Gpu/Webgpu/Api.antt =====
-- The interface of wgpu-native as tools/webgpu-host.c calls it. What a call gives may depend on every
-- call before it.
use Prim.Native.String.{String}
use leanexe.Base.{ℕ, zero, suc, Option, none, some, List, [], ◌∷◌, ◌==◌, if◌then◌else◌, Text}
use leanexe.Base.Run.{ok, out_of_fuel}
use leanexe.Gpu.Machine.{pure, ◌>>=◌, ◌>>◌, Report, World, M, fail, die}

pub data Usage : Type 0 where
  storage copy_src copy_dst map_read : Usage

pub data Object : Type 0 where
  a_buffer a_pipeline a_shader a_command_buffer a_pass an_encoder a_group a_layout : Object

-- Handles are numbers, and 0 is NULL. A binding is a buffer and its size. `reset_request` is no call of
-- the interface but the host's `request.done = false`, at its place among the calls.
pub data Call : Type 0 where
  create_instance : Call
  request_adapter process_events adapter_limits request_device get_queue adapter_info : ℕ → Call
  create_shader : ℕ → Text → Call
  create_pipeline : ℕ → ℕ → Text → Call
  create_buffer : ℕ → List Usage → ℕ → Call
  write_buffer : ℕ → ℕ → List ℕ → Call
  get_layout : ℕ → Call
  create_group : ℕ → ℕ → List (ℕ × ℕ) → Call
  create_encoder begin_pass end_pass : ℕ → Call
  set_pipeline set_group dispatch : ℕ → ℕ → Call
  copy_buffer : ℕ → ℕ → ℕ → ℕ → Call
  finish_commands : ℕ → Call
  submit : ℕ → ℕ → Call
  map_buffer : ℕ → ℕ → Call
  device_poll : ℕ → Call
  mapped_range : ℕ → ℕ → Call
  unmap : ℕ → Call
  reset_request : Call
  release : Object → ℕ → Call

-- What a callback has been given since `done` was last false: at the start, after `reset_request`, and
-- at each map, which has a `done` of its own.
pub data Status : Type 0 where
  waiting : Status
  done : ℕ → Status
  refused : Option Text → Status

-- `WGPUAdapterInfo`; a string view may be NULL.
pub record Info : Type 0 where
  pub vendor : Option Text
  pub architecture : Option Text
  pub device : Option Text
  pub description : Option Text
  pub backend : ℕ
  pub kind : ℕ

-- `handle` is what a call returns, for a call that returns a status 0 on success; `error` is what the
-- call gives to `on_error`; `bytes` what a mapped buffer holds. The model follows `rounds` rounds of
-- the loops that wait for a callback.
pub record Api : Type 0 where
  pub handle : List Call → Call → ℕ
  pub error : List Call → Call → Option (ℕ × Option Text)
  pub status : List Call → Status
  pub info : List Call → Info
  pub bytes : List Call → ℕ → ℕ → Text
  pub rounds : ℕ

-- What an entry of the session's table holds.
pub record Held : Type 0 where
  pub buffer : ℕ
  pub bytes : ℕ
  pub pipeline : ℕ

abbrev pub Host : Type 0 → Type 0
Host A = M Call Held A

abbrev pub WebgpuWorld : Type 0
WebgpuWorld = World Call Held

unfoldable pub print_view : Option Text → Text
print_view none = []
print_view (some text) = text

-- A call, and `on_error` when the call reports an error.
unfoldable pub call : Api → Call → Host ℕ
call api c w = elim (api.error w.calls c) [
  | none ↦ ok (api.handle w.calls c) (record w { calls = c ∷ w.calls })
  | some e ↦
      let (number, message) = e in
      fail (Report.gpu_error number (print_view message)) (record w { calls = c ∷ w.calls })
]

-- A call whose handle may not be NULL.
unfoldable pub call_or_die : Api → Call → String → Host ℕ
call_or_die api c message = do handle ← call api c; if handle == 0 then die message else pure handle

-- A call whose status must be `WGPUStatus_Success`.
unfoldable pub call_succeeds : Api → Call → String → Host (Unit {0})
call_succeeds api c message = do status ← call api c; if status == 0 then pure tt else die message

-- `while (!request.done)` and the callback of the request; `what` stands for `on_adapter`,
-- `on_device` or `on_map`.
unfoldable pub await : Api → String → Host ℕ → ℕ → Host ℕ
await api what poll zero = λ w. elim (api.status w.calls) [
  | waiting ↦ out_of_fuel
  | done h ↦ ok h w
  | refused message ↦ fail (Report.named what (print_view message)) w
]
await api what poll (suc f) = λ w. elim (api.status w.calls) [
  | waiting ↦ (poll >> await api what poll f) w
  | done h ↦ ok h w
  | refused message ↦ fail (Report.named what (print_view message)) w
]

-- `request.done = false`.
unfoldable pub forget_answer : Host (Unit {0})
forget_answer w = ok tt (record w { calls = Call.reset_request ∷ w.calls })

pub record Gpu : Type 0 where
  pub instance_handle : ℕ
  pub adapter : ℕ
  pub device : ℕ
  pub queue : ℕ

unfoldable pub open_gpu : Api → Host Gpu
open_gpu api = do
  instance_handle ← call_or_die api Call.create_instance "wgpuCreateInstance failed"
  call api (Call.request_adapter instance_handle)
  adapter ← await api "no adapter: %s" (call api (Call.process_events instance_handle)) api.rounds
  forget_answer
  call_succeeds api (Call.adapter_limits adapter) "wgpuAdapterGetLimits failed"
  call api (Call.request_device adapter)
  device ← await api "no device: %s" (call api (Call.process_events instance_handle)) api.rounds
  queue ← call api (Call.get_queue device)
  pure (record {
    instance_handle = instance_handle;
    adapter = adapter;
    device = device;
    queue = queue;
  })

unfoldable pub make_buffer : Api → Gpu → List Usage → ℕ → Host ℕ
make_buffer api gpu usage bytes =
    call_or_die api (Call.create_buffer gpu.device usage bytes) "wgpuDeviceCreateBuffer failed"

-- One round of the loop that waits for a map.
unfoldable pub poll_map : Api → Gpu → Host ℕ
poll_map api gpu = do
  call api (Call.device_poll gpu.device)
  call api (Call.process_events gpu.instance_handle)

unfoldable pub wait_map : Api → Gpu → ℕ → ℕ → Host (Unit {0})
wait_map api gpu buffer bytes = do
  call api (Call.map_buffer buffer bytes)
  await api "map failed: %s" (poll_map api gpu) api.rounds
  pure tt
