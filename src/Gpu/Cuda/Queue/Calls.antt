-- ===== src/Gpu/Cuda/Queue/Calls.antt =====
-- One call of the driver, by its role.
use Prim.Native.String.{String}
use leanexe.Base.{◌≡◌, refl, ◌⊎◌, inl, inr, true, false, List, ◌∷◌, ℕ}
use leanexe.Gpu.Table.{Table}
use leanexe.Gpu.Machine.{◌>>=◌}
use leanexe.Gpu.Machine.Triples.{Triple, triple, Triple-at, Triple-bind, Triple-weaken}
use leanexe.Gpu.Cuda.Driver.{Call, Driver, Held, Host, check, release_host_words, synchronize}
use leanexe.Gpu.Cuda.Driver.Checks.{Triple-check}
use leanexe.Gpu.Cuda.Queue.{Role, role, queue_step, queue_after, IsOrdered, IsIdle}

-- The same, whatever the table holds.
unfoldable pub Safe : List Call → Table Held → Type 0
Safe calls t = IsOrdered calls

unfoldable pub Idle : List Call → Table Held → Type 0
Idle calls t = IsIdle calls

pub Safe-IsOrdered : (calls : List Call) (t : Table Held) → Safe calls t → IsOrdered calls
unfolding Safe
Safe-IsOrdered calls t h = h

pub Idle-Safe : (calls : List Call) (t : Table Held) → Idle calls t → Safe calls t
unfolding Safe Idle IsOrdered IsIdle
Idle-Safe calls t h = (false, h)

pub Idle-IsOrdered : (calls : List Call) (t : Table Held) → Idle calls t → IsOrdered calls
unfolding Idle IsOrdered IsIdle
Idle-IsOrdered calls t h = (false, h)

-- Neither looks at the table.
pub Safe-any : (calls : List Call) (t t' : Table Held) → Safe calls t → Safe calls t'
unfolding Safe
Safe-any calls t t' h = h

pub Idle-any : (calls : List Call) (t t' : Table Held) → Idle calls t → Idle calls t'
unfolding Idle
Idle-any calls t t' h = h

-- A call that queues work, or neither waits nor releases.
unfoldable pub IsCommon : Call → Type 0
IsCommon c = (role c ≡ Role.queues) ⊎ (role c ≡ Role.neither)

Safe-common :
    (c : Call) (calls : List Call) (t : Table Held)
    → IsCommon c
    → Safe calls t
    → IsOrdered (c ∷ calls)
unfolding IsCommon Safe IsOrdered queue_after queue_step
Safe-common c calls t (inl e) (b, h) = (true, simp (e, h))
Safe-common c calls t (inr e) (b, h) = (b, simp (e, h))

pub check-common :
    (d : Driver) (c : Call) (name : String)
    → IsCommon c
    → Triple IsOrdered Safe (λ _. Safe) (check d c name)
unfolding Safe
check-common d c name common =
    Triple-check (λ _. Safe) d c name (λ calls t. Safe-common c calls t common)
      (λ calls t. Safe-common c calls t common)

-- A call that waits for the queued work.
pub check-waits :
    (d : Driver) (c : Call) (name : String)
    → role c ≡ Role.waits
    → Triple IsOrdered Safe (λ _. Idle) (check d c name)
unfolding Safe Idle IsOrdered IsIdle queue_after queue_step
check-waits d c name e =
    Triple-check (λ _. Idle) d c name (λ calls t (b, h). (false, simp (e, h)))
      (λ calls t (b, h). simp (e, h))

-- A release, while no work is queued.
pub check-frees :
    (d : Driver) (c : Call) (name : String)
    → role c ≡ Role.frees
    → Triple IsOrdered Idle (λ _. Idle) (check d c name)
unfolding Safe Idle IsOrdered IsIdle queue_after queue_step
check-frees d c name e =
    Triple-check (λ _. Idle) d c name (λ calls t h. (false, simp (e, h))) (λ calls t h. simp (e, h))

pub Idle-release_host_words : Triple IsOrdered Idle (λ _. Idle) release_host_words
unfolding release_host_words Idle IsIdle queue_after queue_step role
Idle-release_host_words = triple λ w h. (simp h, refl)

-- What is proved from `Safe` holds from `Idle`.
pub Idle-weaken :
    {A : Type 0} (Q : A → List Call → Table Held → Type 0) (c : Host A)
    → Triple IsOrdered Safe Q c
    → Triple IsOrdered Idle Q c
Idle-weaken Q c h = triple λ w p. Triple-at IsOrdered Safe Q c h w (Idle-Safe w.calls w.entries p)

-- What ends with no queued work is ordered.
pub Safe-after :
    {A : Type 0} (P : List Call → Table Held → Type 0) (c : Host A)
    → Triple IsOrdered P (λ _. Idle) c
    → Triple IsOrdered P (λ _. Safe) c
Safe-after P c h = Triple-weaken (λ _. Idle) (λ _. Safe) c (λ a. Idle-Safe) h

-- `synchronize`, and what follows it.
pub synchronize-bind :
    {A : Type 0} (Q : A → List Call → Table Held → Type 0) (d : Driver) (k : ℕ → Host A)
    → ((a : ℕ) → Triple IsOrdered Idle Q (k a))
    → Triple IsOrdered Safe Q (synchronize d >>= k)
unfolding synchronize role
synchronize-bind Q d k h =
    Triple-bind (λ _. Idle) Q _ k (check-waits d Call.stream_synchronize "cuStreamSynchronize" refl)
      h

-- A call that neither queues, waits nor releases.
pub check-neither :
    (d : Driver) (c : Call) (name : String)
    → role c ≡ Role.neither
    → Triple IsOrdered Idle (λ _. Idle) (check d c name)
unfolding Safe Idle IsOrdered IsIdle queue_after queue_step
check-neither d c name e =
    Triple-check (λ _. Idle) d c name (λ calls t h. (false, simp (e, h))) (λ calls t h. simp (e, h))
