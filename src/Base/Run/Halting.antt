-- ===== src/Base/Run/Halting.antt =====
-- Commands that never run out of rounds, as long as `I` holds of the state.
use leanexe.Base.Tests.{if◌then◌else◌}
use mathlib.Core.Bool.{Bool, true, false}
use leanexe.Base.Run.{Run, ok, exited, out_of_fuel, Cmd, and_then, pure, ◌>>=◌}

-- Where the run gives a value, `I` still holds and `P` holds of the value.
abbrev pub Halts : {S A : Type 0} → (S → Type 0) → (A → Type 0) → Run S A → Type 0
Halts I P (ok a s) = I s × P a
Halts I P (exited code s) = Unit
Halts I P out_of_fuel = ⊥

pub data Halting {S A : Type 0} (I : S → Type 0) (P : A → Type 0) (c : Cmd S A) : Type 0 where
  halting : ((s : S) → I s → Halts I P (c s)) → Halting I P c

pub Halting-at :
    {S A : Type 0} (I : S → Type 0) (P : A → Type 0) (c : Cmd S A)
    → Halting I P c
    → (s : S) → I s
    → Halts I P (c s)
Halting-at I P c (halting h) = h

Halts-and_then :
    {S A B : Type 0} (I : S → Type 0) (Q : B → Type 0) (P : A → Type 0) (r : Run S B)
    (k : B → Cmd S A)
    → Halts I Q r
    → ((b : B) → Q b → Halting I P (k b))
    → Halts I P (and_then r k)
Halts-and_then I Q P (ok b s) k (i, q) h = Halting-at I P (k b) (h b q) s i
Halts-and_then I Q P (exited code s) k x h = tt
Halts-and_then I Q P out_of_fuel k x h = x

Halts-weaken :
    {S A : Type 0} (I : S → Type 0) (P Q : A → Type 0) (r : Run S A)
    → ((a : A) → P a → Q a)
    → Halts I P r
    → Halts I Q r
Halts-weaken I P Q (ok a s) f (i, p) = (i, f a p)
Halts-weaken I P Q (exited code s) f h = tt
Halts-weaken I P Q out_of_fuel f h = h

module _ {S A : Type 0} {I : S → Type 0} where
  pub Halting-bind :
      {B : Type 0} (Q : B → Type 0) (P : A → Type 0) (c : Cmd S B) (k : B → Cmd S A)
      → Halting I Q c
      → ((b : B) → Q b → Halting I P (k b))
      → Halting I P (c >>= k)
  Halting-bind Q P c k h hk =
      halting λ s i. Halts-and_then I Q P (c s) k (Halting-at I Q c h s i) hk

  pub Halting-if :
      (P : A → Type 0) (b : Bool) (c d : Cmd S A)
      → Halting I P c
      → Halting I P d
      → Halting I P (if b then c else d)
  Halting-if P true c d hc hd = hc
  Halting-if P false c d hc hd = hd

  pub Halting-pure : (P : A → Type 0) (a : A) → P a → Halting I P (pure a)
  Halting-pure P a p = halting λ s i. (i, p)

  -- The value does not matter.
  pub Halting-then :
      {B : Type 0} (P : A → Type 0) (c : Cmd S B) (k : B → Cmd S A)
      → Halting I (λ b. Unit {0}) c
      → ((b : B) → Halting I P (k b))
      → Halting I P (c >>= k)
  Halting-then P c k h hk = Halting-bind (λ b. Unit {0}) P c k h (λ b q. hk b)

  pub Halting-weaken :
      (P Q : A → Type 0) (c : Cmd S A) → ((a : A) → P a → Q a) → Halting I P c → Halting I Q c
  Halting-weaken P Q c f (halting h) = halting λ s i. Halts-weaken I P Q (c s) f (h s i)
