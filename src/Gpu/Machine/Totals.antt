-- ===== src/Gpu/Machine/Totals.antt =====
-- What a command that may read input does with the calls and the table, however it ends.
use leanexe.Base.{Bool, true, false, List, if◌then◌else◌, Text}
use leanexe.Base.Run.{Run, ok, exited, out_of_fuel, and_then}
use leanexe.Gpu.Table.{Table}
use leanexe.Gpu.Machine.{World, M, ◌>>=◌}
use leanexe.Gpu.Machine.Triples.{Triple, triple, Meets}

-- The run has used up no loop's rounds; where it returns, `Q` holds, and where it ends the process, `X`.
abbrev pub Ends :
    {C E A : Type 0}
    → (List C → Type 0)
    → (A → List C → Table E → Type 0)
    → Run (World C E) A
    → Type 0
Ends X Q (ok a w) = Q a w.calls w.entries
Ends X Q (exited code w) = X w.calls
Ends X Q out_of_fuel = ⊥

-- From `P` a command ends, with `Q` where it returns and `X` where it ends the process; it may read input.
pub data Total {C E A : Type 0} (X : List C → Type 0) (P : List C → Table E → Type 0)
    (Q : A → List C → Table E → Type 0) (c : M C E A) : Type 0 where
  total : ((w : World C E) → P w.calls w.entries → Ends X Q (c w)) → Total X P Q c

pub Total-at :
    {C E A : Type 0} (X : List C → Type 0) (P : List C → Table E → Type 0)
    (Q : A → List C → Table E → Type 0) (c : M C E A)
    → Total X P Q c
    → (w : World C E) → P w.calls w.entries
    → Ends X Q (c w)
Total-at X P Q c (total h) = h

Ends-Meets :
    {C E A : Type 0} (X : List C → Type 0) (Q : A → List C → Table E → Type 0) (stdin : Text)
    (r : Run (World C E) A)
    → Meets X Q stdin r
    → Ends X Q r
Ends-Meets X Q stdin (ok a w) (q, e) = q
Ends-Meets X Q stdin (exited code w) h = h
Ends-Meets X Q stdin out_of_fuel h = h

pub Ends-weaken :
    {C E A : Type 0} (X : List C → Type 0) (Q R : A → List C → Table E → Type 0)
    (r : Run (World C E) A)
    → ((a : A) (calls : List C) (t : Table E) → Q a calls t → R a calls t)
    → Ends X Q r
    → Ends X R r
Ends-weaken X Q R (ok a w) f q = f a w.calls w.entries q
Ends-weaken X Q R (exited code w) f h = h
Ends-weaken X Q R out_of_fuel f h = h

Ends-and_then :
    {C E A B : Type 0} (X : List C → Type 0) (R : B → List C → Table E → Type 0)
    (Q : A → List C → Table E → Type 0) (r : Run (World C E) B) (k : B → M C E A)
    → Ends X R r
    → ((b : B) → Total X (R b) Q (k b))
    → Ends X Q (and_then r k)
Ends-and_then X R Q (ok b w) k h hk = Total-at X (R b) Q (k b) (hk b) w h
Ends-and_then X R Q (exited code w) k h hk = h
Ends-and_then X R Q out_of_fuel k h hk = h

module _ {C E A : Type 0} {X : List C → Type 0} {P : List C → Table E → Type 0} where
  pub Triple-Total :
      (Q : A → List C → Table E → Type 0) (c : M C E A) → Triple X P Q c → Total X P Q c
  Triple-Total Q c (triple h) = total λ w p. Ends-Meets X Q w.stdin (c w) (h w p)

  -- A stronger condition in front.
  pub Total-from :
      (R : List C → Table E → Type 0) (Q : A → List C → Table E → Type 0) (c : M C E A)
      → ((calls : List C) (t : Table E) → P calls t → R calls t)
      → Total X R Q c
      → Total X P Q c
  Total-from R Q c f (total h) = total λ w p. h w (f w.calls w.entries p)

  pub Total-if :
      (Q : A → List C → Table E → Type 0) (b : Bool) (m n : M C E A)
      → Total X P Q m
      → Total X P Q n
      → Total X P Q (if b then m else n)
  Total-if Q true m n hm hn = hm
  Total-if Q false m n hm hn = hn

  pub Total-bind :
      {B : Type 0} (R : B → List C → Table E → Type 0) (Q : A → List C → Table E → Type 0)
      (c : M C E B) (k : B → M C E A)
      → Total X P R c
      → ((b : B) → Total X (R b) Q (k b))
      → Total X P Q (c >>= k)
  unfolding ◌>>=◌
  Total-bind R Q c k h hk = total λ w p. Ends-and_then X R Q (c w) k (Total-at X P R c h w p) hk

  pub Total-keeps :
      {B : Type 0} (Q : A → List C → Table E → Type 0) (c : M C E B) (k : B → M C E A)
      → Total X P (λ _. P) c
      → ((b : B) → Total X P Q (k b))
      → Total X P Q (c >>= k)
  Total-keeps Q c k h hk = Total-bind (λ _. P) Q c k h hk
