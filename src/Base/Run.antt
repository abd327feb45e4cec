-- ===== src/Base/Run.antt =====
-- Commands over a state of type `S`: a command gives a value, ends the process with an exit status,
-- or has used up the rounds that its loops were given.
pub mod Results
pub mod Halting
use Prim.Native.Nat.{ℕ}

pub data Run (S A : Type 0) : Type 0 where
  ok : A → S → Run S A
  exited : ℕ → S → Run S A
  out_of_fuel : Run S A

abbrev pub Cmd : Type 0 → Type 0 → Type 0
Cmd S A = S → Run S A

module _ {S A : Type 0} where
  abbrev pub pure : A → Cmd S A
  pure a s = ok a s

  -- `exit(code)`
  abbrev pub quit : ℕ → Cmd S A
  quit code s = exited code s

module _ {S A B : Type 0} where
  abbrev pub and_then : Run S A → (A → Cmd S B) → Run S B
  and_then (ok a s) k = k a s
  and_then (exited code s) k = exited code s
  and_then out_of_fuel k = out_of_fuel

  infixl 5 ◌>>=◌ ◌>>◌
  abbrev pub ◌>>=◌ : Cmd S A → (A → Cmd S B) → Cmd S B
  ◌>>=◌ m k s = and_then (m s) k

  abbrev pub ◌>>◌ : Cmd S A → Cmd S B → Cmd S B
  m >> n = m >>= λ _. n
