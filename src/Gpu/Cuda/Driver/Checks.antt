-- ===== src/Gpu/Cuda/Driver/Checks.antt =====
-- What `check` does with a call that succeeds and with one that fails.
use Prim.Native.String.{String}
use leanexe.Base.{ℕ, ◌≡◌, refl, inl, inr, Bool-cases, true, false, List, ◌∷◌, ◌==◌}
use leanexe.Gpu.Table.{Table}
use leanexe.Gpu.Machine.{fail}
use leanexe.Gpu.Machine.Triples.{Triple, triple}
use leanexe.Gpu.Cuda.Driver.{Call, Driver, Held, check}

module _ {X : List Call → Type 0} {P : List Call → Table Held → Type 0} where
  pub Triple-check_result :
      (Q : ℕ → List Call → Table Held → Type 0) (d : Driver) (c : Call) (name : String)
      → ((calls : List Call) (t : Table Held)
          → P calls t
          → (d.result calls c == 0) ≡ false
          → X (c ∷ calls))
      → ((calls : List Call) (t : Table Held)
          → P calls t
          → (d.result calls c == 0) ≡ true
          → Q (d.value calls c) (c ∷ calls) t)
      → Triple X P Q (check d c name)
  unfolding check fail
  Triple-check_result Q d c name hx hq = triple λ w p. elim (Bool-cases (d.result w.calls c == 0)) [
    | inl success ↦ simp success (hq w.calls w.entries p success, refl)
    | inr failure ↦ simp failure (hx w.calls w.entries p failure)
  ]

  -- The same, where the result does not matter.
  pub Triple-check :
      (Q : ℕ → List Call → Table Held → Type 0) (d : Driver) (c : Call) (name : String)
      → ((calls : List Call) (t : Table Held) → P calls t → X (c ∷ calls))
      → ((calls : List Call) (t : Table Held) → P calls t → Q (d.value calls c) (c ∷ calls) t)
      → Triple X P Q (check d c name)
  Triple-check Q d c name hx hq =
      Triple-check_result Q d c name (λ calls t p e. hx calls t p) (λ calls t p e. hq calls t p)
