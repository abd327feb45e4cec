-- ===== src/Gpu/Cuda/Queue.antt =====
-- The order of the driver's calls on the stream of tools/cuda-host.c: which calls queue work, which wait
-- for it, and which free what queued work may use.
pub mod Calls
pub mod Run
pub mod Session
pub mod Main
use leanexe.Base.{◌≡◌, Bool, true, false, Option, none, some, List, [], ◌∷◌}
use leanexe.Gpu.Cuda.Driver.{Call}

pub data Role : Type 0 where
  queues waits frees neither : Role

unfoldable pub role : Call → Role
role (Call.copy_to_device buffer words) = Role.queues
role (Call.copy_from_device buffer bytes) = Role.queues
role (Call.memset buffer word count) = Role.queues
role (Call.launch function blocks params) = Role.queues
role Call.stream_synchronize = Role.waits
role (Call.mem_free buffer) = Role.frees
role (Call.module_unload kernel) = Role.frees
role Call.free_words = Role.frees
role Call.stream_destroy = Role.frees
role c = Role.neither

-- Whether work is queued; `none` after a release while work was queued.
unfoldable pub queue_step : Role → Option Bool → Option Bool
queue_step r none = none
queue_step Role.queues (some queued) = some true
queue_step Role.waits (some queued) = some false
queue_step Role.frees (some true) = none
queue_step Role.frees (some false) = some false
queue_step Role.neither (some queued) = some queued

-- The calls, the latest first.
unfoldable pub queue_after : List Call → Option Bool
queue_after [] = some false
queue_after (c ∷ calls) = queue_step (role c) (queue_after calls)

-- No call released anything while work was queued.
unfoldable pub IsOrdered : List Call → Type 0
IsOrdered calls = (queued : Bool) × (queue_after calls ≡ some queued)

-- Nor is any work queued.
unfoldable pub IsIdle : List Call → Type 0
IsIdle calls = queue_after calls ≡ some false
