-- ===== src/Gpu/Loop/Keeps.antt =====
-- What every command of a session keeps, the session keeps.
use leanexe.Base.{
  ℕ, zero, suc, ◌≡◌, refl, sym, ◌<◌, ◌+◌, Bool-cases, false, inl, inr, List, [], ◌∷◌, ◌==◌, Text,
  text_eq, codes, length, arith,
}
use mathlib.Core.Path.{subst}
use leanexe.Base.Run.{Run, ok, exited, out_of_fuel, and_then}
use leanexe.Base.Lines.{fgets}
use leanexe.Base.Lines.Lengths.{length-fgets_less}
use leanexe.Gpu.Table.{Table}
use leanexe.Gpu.Machine.{World, M, pure, ◌>>=◌, ◌>>◌, print}
use leanexe.Gpu.Machine.Triples.{Triple, Triple-at, Meets}
use leanexe.Gpu.Machine.Totals.{Ends, Total, total}
use leanexe.Gpu.Words.{line_words}
use leanexe.Gpu.Loop.{Commands, session_step, session_loop}

rest-short :
    {C E : Type 0} (f : ℕ) (w w' : World C E)
    → length w.stdin < suc f
    → (length w.stdin == 0) ≡ false
    → w'.stdin ≡ (fgets 65535 w.stdin).1
    → length w'.stdin < f
rest-short f w w' h more e =
    subst (λ s. length s < f) (sym e) (omega (arith, h, length-fgets_less 65534 w.stdin more))

module _ {C E : Type 0} (X : List C → Type 0) (P : List C → Table E → Type 0)
    (run_command : Commands C E)
    (keeps : (command : Text) (words : List Text)
      → Triple X P (λ _. P) (run_command command words)) where
  -- After a command, what holds of the next round's result.
  Ends-command :
      (stdin : Text) (r : Run (World C E) (Unit {0})) (next : M C E (Unit {0}))
      → Meets X (λ _. P) stdin r
      → ((w : World C E) → P w.calls w.entries → w.stdin ≡ stdin → Ends X (λ _. P) (next w))
      → Ends X (λ _. P) (and_then r (λ _. print (codes "ok\n") >> next))
  unfolding ◌>>=◌ print
  Ends-command stdin (ok a w) next (p, e) h = h _ p e
  Ends-command stdin (exited code w) next x h = x
  Ends-command stdin out_of_fuel next x h = x

  Ends-step :
      (words : List Text) (next : M C E (Unit {0})) (w : World C E)
      → P w.calls w.entries
      → ((w' : World C E) → P w'.calls w'.entries → w'.stdin ≡ w.stdin → Ends X (λ _. P) (next w'))
      → Ends X (λ _. P) (session_step run_command words next w)
  unfolding session_step pure ◌>>=◌
  Ends-step [] next w p h = h w p refl
  Ends-step (command ∷ words) next w p h = elim (Bool-cases (text_eq command (codes "quit"))) [
    | inl quits ↦ simp quits p
    | inr other ↦ simp other (
        Ends-command w.stdin (run_command command words w) next
          (Triple-at X P (λ _. P) (run_command command words) (keeps command words) w p) h)
  ]

  pub Ends-session_loop :
      (f : ℕ) (w : World C E)
      → P w.calls w.entries
      → length w.stdin < f
      → Ends X (λ _. P) (session_loop run_command f w)
  unfolding session_loop
  Ends-session_loop zero w p h = absurd (omega (arith, h))
  Ends-session_loop (suc f) w p h = elim (Bool-cases (length w.stdin == 0)) [
    | inl over ↦ simp (over, session_loop) p
    | inr more ↦
        let (buffer, rest) = fgets 65535 w.stdin in
        simp (more, session_loop)
          (Ends-step (line_words buffer) (session_loop run_command f) (record w { stdin = rest }) p
            (λ w' p' e. Ends-session_loop f w' p' (rest-short f w w' h more e)))
  ]

  -- With a round for each byte of the input and one more.
  pub Total-session_loop : Total X P (λ _. P) (λ w. session_loop run_command (length w.stdin + 1) w)
  Total-session_loop = total λ w p. Ends-session_loop (length w.stdin + 1) w p (omega arith)
