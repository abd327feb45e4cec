-- ===== src/Gpu/Webgpu/Ends.antt =====
-- tools/webgpu-host.c ends: its calls and the loops that wait for a callback.
pub mod Run
pub mod Session
pub mod Main
use Prim.Native.String.{String}
use leanexe.Base.{
  ℕ, zero, suc, ◌+◌, ◌≡◌, ◌≢◌, ◌≤◌, refl, sym, ap, ◌∙◌, ◌⊎◌, inl, inr, Bool, true, false, Option,
  Option-cases, none, some, List, [], ◌∷◌, ◌==◌, if◌then◌else◌, Text, arith, length,
}
use leanexe.Gpu.Table.{Table}
use leanexe.Gpu.Table.Tidy.{IsTidy}
use leanexe.Gpu.Machine.{M, pure, fail, die, ◌>>=◌}
use leanexe.Gpu.Machine.Triples.{
  Triple, triple, Triple-at, Triple-bind, Triple-weaken, Triple-from, Triple-if, Triple-fail,
  Keeps-bind, Keeps-pure, keeps_rules, Meets,
}
use leanexe.Gpu.Webgpu.Api.{
  Call, Usage, Status, Api, Held, Gpu, Host, call, call_or_die, call_succeeds, await, forget_answer,
  open_gpu, make_buffer, poll_map, wait_map,
}

-- How often the host has just polled.
unfoldable pub polls : List Call → ℕ
polls (Call.process_events handle ∷ calls) = suc (polls calls)
polls (Call.device_poll handle ∷ calls) = suc (polls calls)
polls calls = 0

-- What wgpu-native promises: the callback of a request is called before the host has polled
-- `api.rounds` times.
unfoldable pub Answers : Api → Type 0
Answers api = (calls : List Call) → api.rounds ≤ polls calls → api.status calls ≢ Status.waiting

-- The process may end with any calls.
abbrev pub Anyhow : List Call → Type 0
Anyhow calls = Unit

unfoldable pub Tidy : List Call → Table Held → Type 0
Tidy calls t = IsTidy t

-- With `n` polls, at least.
unfoldable Polled : ℕ → List Call → Table Held → Type 0
Polled n calls t = IsTidy t × (n ≤ polls calls)

pub Tidy-Anyhow : (calls : List Call) (t : Table Held) → Tidy calls t → Anyhow calls
Tidy-Anyhow calls t h = tt

Triple-call_to :
    {P : List Call → Table Held → Type 0} (Q : ℕ → List Call → Table Held → Type 0) (api : Api)
    (c : Call)
    → ((v : ℕ) (calls : List Call) (t : Table Held) → P calls t → Q v (c ∷ calls) t)
    → Triple Anyhow P Q (call api c)
unfolding call fail
Triple-call_to Q api c h = triple λ w p. elim (Option-cases (api.error w.calls c)) [
  | inl silent ↦ simp (silent, call) (h (api.handle w.calls c) w.calls w.entries p, refl)
  | inr (e, reported) ↦ simp (reported, call) tt
]

pub Keeps-call : (api : Api) (c : Call) → Triple Anyhow Tidy (λ _. Tidy) (call api c)
unfolding Tidy
Keeps-call api c = Triple-call_to (λ _. Tidy) api c (λ v calls t p. p)

Keeps-forget_answer : Triple Anyhow Tidy (λ _. Tidy) forget_answer
unfolding forget_answer Tidy
Keeps-forget_answer = triple λ w tidy. (tidy, refl)

pub Keeps-call_or_die :
    (api : Api) (c : Call) (message : String)
    → Triple Anyhow Tidy (λ _. Tidy) (call_or_die api c message)
unfolding call_or_die die
Keeps-call_or_die api c message = search (keeps_rules, Keeps-call, Tidy-Anyhow) depth 8

pub Keeps-call_succeeds :
    (api : Api) (c : Call) (message : String)
    → Triple Anyhow Tidy (λ _. Tidy) (call_succeeds api c message)
unfolding call_succeeds die
Keeps-call_succeeds api c message = search (keeps_rules, Keeps-call, Tidy-Anyhow) depth 8

Status-cases :
    (s : Status)
    → (s ≡ Status.waiting)
      ⊎ (((h : ℕ) × (s ≡ Status.done h)) ⊎ ((m : Option Text) × (s ≡ Status.refused m)))
Status-cases Status.waiting = inl refl
Status-cases (Status.done h) = inr (inl (h, refl))
Status-cases (Status.refused m) = inr (inr (m, refl))

module _ (api : Api) (answers : Answers api) (what : String) (poll : Host ℕ)
    (polled : (n : ℕ) → Triple Anyhow (Polled n) (λ _. Polled (suc n)) poll) where
  Keeps-await_rounds :
      (f n : ℕ) → api.rounds ≤ n + f → Triple Anyhow (Polled n) (λ _. Tidy) (await api what poll f)
  unfolding await fail Polled Tidy Answers ◌>>=◌
  Keeps-await_rounds zero n h = triple λ w (tidy, enough).
      elim (Status-cases (api.status w.calls)) [
        | inl waits ↦ absurd (answers w.calls (omega (arith, h, enough)) waits)
        | inr (inl (v, e)) ↦ simp (e, await) (tidy, refl)
        | inr (inr (m, e)) ↦ simp (e, await) tt
      ]
  Keeps-await_rounds (suc f) n h = triple λ w (tidy, enough).
      elim (Status-cases (api.status w.calls)) [
        | inl waits ↦
            simp (waits, await)
              (Triple-at Anyhow (Polled n) (λ _. Tidy) _
                (Triple-bind (λ _. Polled (suc n)) (λ _. Tidy) poll (λ v. await api what poll f)
                  (polled n) (λ v. Keeps-await_rounds f (suc n) (omega (arith, h))))
                w (tidy, enough))
        | inr (inl (v, e)) ↦ simp (e, await) (tidy, refl)
        | inr (inr (m, e)) ↦ simp (e, await) tt
      ]

  Keeps-await : Triple Anyhow Tidy (λ _. Tidy) (await api what poll api.rounds)
  unfolding Polled Tidy
  Keeps-await =
      Triple-from (Polled 0) _ _ (λ calls t tidy. (tidy, omega arith))
        (Keeps-await_rounds api.rounds 0 (omega arith))

poll_events-Polled :
    (api : Api) (handle n : ℕ)
    → Triple Anyhow (Polled n) (λ _. Polled (suc n)) (call api (Call.process_events handle))
unfolding Polled polls
poll_events-Polled api handle n =
    Triple-call_to (λ _. Polled (suc n)) api (Call.process_events handle)
      (λ v calls t (tidy, enough). (tidy, omega (arith, enough)))

poll_map-Polled :
    (api : Api) (gpu : Gpu) (n : ℕ)
    → Triple Anyhow (Polled n) (λ _. Polled (suc n)) (poll_map api gpu)
unfolding poll_map Polled polls
poll_map-Polled api gpu n =
    Triple-bind (λ _. Polled n) (λ _. Polled (suc n)) _ _
      (Triple-call_to (λ _. Polled n) api (Call.device_poll gpu.device)
        (λ v calls t (tidy, enough). (tidy, omega (arith, enough))))
      (λ v. poll_events-Polled api gpu.instance_handle n)

module _ (api : Api) (answers : Answers api) where
  Keeps-await_events :
      (what : String) (handle : ℕ)
      → Triple Anyhow Tidy
          (λ _. Tidy)
          (await api what (call api (Call.process_events handle)) api.rounds)
  Keeps-await_events what handle =
      Keeps-await api answers what (call api (Call.process_events handle))
        (poll_events-Polled api handle)

  pub Keeps-open_gpu : Triple Anyhow Tidy (λ _. Tidy) (open_gpu api)
  unfolding open_gpu
  Keeps-open_gpu =
      search
        (
          keeps_rules, Keeps-call, Keeps-call_or_die, Keeps-call_succeeds, Keeps-await_events,
          Keeps-forget_answer,
        )
        depth 28

  Keeps-await_map :
      (gpu : Gpu) (what : String)
      → Triple Anyhow Tidy (λ _. Tidy) (await api what (poll_map api gpu) api.rounds)
  Keeps-await_map gpu what =
      Keeps-await api answers what (poll_map api gpu) (poll_map-Polled api gpu)

  pub Keeps-wait_map :
      (gpu : Gpu) (buffer bytes : ℕ)
      → Triple Anyhow Tidy (λ _. Tidy) (wait_map api gpu buffer bytes)
  unfolding wait_map
  Keeps-wait_map gpu buffer bytes = search (keeps_rules, Keeps-call, Keeps-await_map) depth 10

pub Keeps-make_buffer :
    (api : Api) (gpu : Gpu) (usage : List Usage) (bytes : ℕ)
    → Triple Anyhow Tidy (λ _. Tidy) (make_buffer api gpu usage bytes)
unfolding make_buffer
Keeps-make_buffer api gpu usage bytes = Keeps-call_or_die _ _ _

pub ruleset call_rules = (
  keeps_rules, Keeps-call, Keeps-call_or_die, Keeps-call_succeeds, Keeps-make_buffer,
  Keeps-wait_map, Tidy-Anyhow,
)
