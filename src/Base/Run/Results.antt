-- ===== src/Base/Run/Results.antt =====
-- What holds of the values that a command gives, when it gives one.
use Prim.Native.Nat.{ℕ}
use leanexe.Base.Tests.{if◌then◌else◌}
use mathlib.Core.Bool.{Bool, true, false}
use mathlib.Core.Path.{◌≡◌, sym, subst}
use leanexe.Base.Run.{Run, ok, exited, out_of_fuel, Cmd, and_then, pure, ◌>>=◌}

abbrev IsGiven : {S A : Type 0} → (A → Type 0) → Run S A → Type 0
IsGiven P (ok a s) = P a
IsGiven P (exited code s) = Unit
IsGiven P out_of_fuel = Unit

-- `P` holds of every value that the command gives.
pub data Gives {S A : Type 0} (P : A → Type 0) (c : Cmd S A) : Type 0 where
  gives : ((s : S) → IsGiven P (c s)) → Gives P c

IsGiven-and_then :
    {S A B : Type 0} (Q : B → Type 0) (P : A → Type 0) (r : Run S B) (k : B → Cmd S A)
    → IsGiven Q r
    → ((b : B) → Q b → (s : S) → IsGiven P (k b s))
    → IsGiven P (and_then r k)
IsGiven-and_then Q P (ok b s) k q h = h b q s
IsGiven-and_then Q P (exited code s) k q h = tt
IsGiven-and_then Q P out_of_fuel k q h = tt

Gives-at : {S A : Type 0} (P : A → Type 0) (c : Cmd S A) → Gives P c → (s : S) → IsGiven P (c s)
Gives-at P c (gives h) s = h s

IsGiven-any : {S B : Type 0} (r : Run S B) → IsGiven (λ b. Unit {0}) r
IsGiven-any (ok b s) = tt
IsGiven-any (exited code s) = tt
IsGiven-any out_of_fuel = tt

module _ {S A : Type 0} (P : A → Type 0) where
  pub Gives-bind_from :
      {B : Type 0} (Q : B → Type 0) (c : Cmd S B) (k : B → Cmd S A)
      → Gives Q c
      → ((b : B) → Q b → Gives P (k b))
      → Gives P (c >>= k)
  Gives-bind_from Q c k q h =
      gives
        λ s. IsGiven-and_then Q P (c s) k (Gives-at Q c q s) (λ b p s. Gives-at P (k b) (h b p) s)

  pub Gives-bind :
      {B : Type 0} (c : Cmd S B) (k : B → Cmd S A) → ((b : B) → Gives P (k b)) → Gives P (c >>= k)
  Gives-bind c k h = Gives-bind_from (λ b. Unit {0}) c k (gives λ s. IsGiven-any (c s)) (λ b _. h b)

  pub Gives-if : (b : Bool) (c d : Cmd S A) → Gives P c → Gives P d → Gives P (if b then c else d)
  Gives-if true c d hc hd = hc
  Gives-if false c d hc hd = hd

  pub Gives-pure : (a : A) → P a → Gives {S = S} P (pure a)
  Gives-pure a p = gives λ s. p

  pub Gives-exited :
      (c : Cmd S A) → ((s : S) → (code : ℕ) × (s' : S) × (c s ≡ exited code s')) → Gives P c
  Gives-exited c h = gives λ s. let (code, s', e) = h s in subst (IsGiven P) (sym e) tt

  pub Gives-ok : (c : Cmd S A) (a : A) (s s' : S) → Gives P c → c s ≡ ok a s' → P a
  Gives-ok c a s s' (gives h) e = subst (IsGiven P) e (h s)
