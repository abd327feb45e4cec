-- ===== src/Gpu/Machine/Triples.antt =====
-- What a command does with the calls and the table, however it ends.
use leanexe.Base.{
  none, some, Bool, true, false, Bool-cases, Option-cases, not, ◌||◌, ltb, length, ◌==◌, ◌≡◌, refl,
  inl, inr, List, if◌then◌else◌, Text,
}
use mathlib.Core.Path.{subst}
use leanexe.Base.Run.{Run, ok, exited, out_of_fuel, and_then}
use leanexe.Gpu.Table.{Table, max_entries, find_entry, set_entry, append_entry}
use leanexe.Gpu.Machine.{
  Report, World, M, pure, ◌>>=◌, fail, print, set_entries, require, write_file, hold, find_then,
  add_entry, die,
}

-- The command has used up no loop's rounds; where it returns, `Q` holds and the input is `stdin`, and
-- where it ends the process, `X` holds of the calls.
abbrev pub Meets :
    {C E A : Type 0}
    → (List C → Type 0)
    → (A → List C → Table E → Type 0)
    → Text
    → Run (World C E) A
    → Type 0
Meets X Q stdin (ok a w) = Q a w.calls w.entries × (w.stdin ≡ stdin)
Meets X Q stdin (exited code w) = X w.calls
Meets X Q stdin out_of_fuel = ⊥

pub data Triple {C E A : Type 0} (X : List C → Type 0) (P : List C → Table E → Type 0)
    (Q : A → List C → Table E → Type 0) (c : M C E A) : Type 0 where
  triple : ((w : World C E) → P w.calls w.entries → Meets X Q w.stdin (c w)) → Triple X P Q c

pub Triple-at :
    {C E A : Type 0} (X : List C → Type 0) (P : List C → Table E → Type 0)
    (Q : A → List C → Table E → Type 0) (c : M C E A)
    → Triple X P Q c
    → (w : World C E) → P w.calls w.entries
    → Meets X Q w.stdin (c w)
Triple-at X P Q c (triple h) = h

module _ {C E A : Type 0} {X : List C → Type 0} {P : List C → Table E → Type 0} where
  pub Triple-pure :
      (Q : A → List C → Table E → Type 0) (a : A)
      → ((calls : List C) (t : Table E) → P calls t → Q a calls t)
      → Triple X P Q (pure a)
  unfolding pure
  Triple-pure Q a h = triple λ w p. (h w.calls w.entries p, refl)

  pub Keeps-pure : (a : A) → Triple X P (λ _. P) (pure a)
  unfolding pure
  Keeps-pure a = triple λ w p. (p, refl)

  pub Triple-fail :
      (Q : A → List C → Table E → Type 0) (r : Report)
      → ((calls : List C) (t : Table E) → P calls t → X calls)
      → Triple X P Q (fail r)
  unfolding fail
  Triple-fail Q r h = triple λ w p. h w.calls w.entries p

  pub Triple-if :
      (Q : A → List C → Table E → Type 0) (b : Bool) (m n : M C E A)
      → Triple X P Q m
      → Triple X P Q n
      → Triple X P Q (if b then m else n)
  Triple-if Q true m n hm hn = hm
  Triple-if Q false m n hm hn = hn

  pub Triple-test :
      (Q : A → List C → Table E → Type 0) (b : Bool) (m n : M C E A)
      → (b ≡ true → Triple X P Q m)
      → (b ≡ false → Triple X P Q n)
      → Triple X P Q (if b then m else n)
  Triple-test Q true m n hm hn = hm refl
  Triple-test Q false m n hm hn = hn refl

Meets-and_then :
    {C E A B : Type 0} (X : List C → Type 0) (R : B → List C → Table E → Type 0)
    (Q : A → List C → Table E → Type 0) (stdin : Text) (r : Run (World C E) B) (k : B → M C E A)
    → Meets X R stdin r
    → ((b : B) → Triple X (R b) Q (k b))
    → Meets X Q stdin (and_then r k)
Meets-and_then X R Q stdin (ok b w) k (h, e) hk =
    subst (λ s. Meets X Q s (k b w)) e (Triple-at X (R b) Q (k b) (hk b) w h)
Meets-and_then X R Q stdin (exited code w) k h hk = h
Meets-and_then X R Q stdin out_of_fuel k h hk = h

Meets-weaken :
    {C E A : Type 0} (X : List C → Type 0) (Q R : A → List C → Table E → Type 0) (stdin : Text)
    (r : Run (World C E) A)
    → ((a : A) (calls : List C) (t : Table E) → Q a calls t → R a calls t)
    → Meets X Q stdin r
    → Meets X R stdin r
Meets-weaken X Q R stdin (ok a w) f (q, e) = (f a w.calls w.entries q, e)
Meets-weaken X Q R stdin (exited code w) f h = h
Meets-weaken X Q R stdin out_of_fuel f h = h

module _ {C E A : Type 0} {X : List C → Type 0} {P : List C → Table E → Type 0} where
  pub Triple-weaken :
      (Q R : A → List C → Table E → Type 0) (c : M C E A)
      → ((a : A) (calls : List C) (t : Table E) → Q a calls t → R a calls t)
      → Triple X P Q c
      → Triple X P R c
  Triple-weaken Q R c f (triple h) = triple λ w p. Meets-weaken X Q R w.stdin (c w) f (h w p)

  pub Triple-from :
      (R : List C → Table E → Type 0) (Q : A → List C → Table E → Type 0) (c : M C E A)
      → ((calls : List C) (t : Table E) → P calls t → R calls t)
      → Triple X R Q c
      → Triple X P Q c
  Triple-from R Q c f (triple h) = triple λ w p. h w (f w.calls w.entries p)

module _ {C E A B : Type 0} {X : List C → Type 0} {P : List C → Table E → Type 0} where
  pub Triple-bind :
      (R : B → List C → Table E → Type 0) (Q : A → List C → Table E → Type 0) (c : M C E B)
      (k : B → M C E A)
      → Triple X P R c
      → ((b : B) → Triple X (R b) Q (k b))
      → Triple X P Q (c >>= k)
  unfolding ◌>>=◌
  Triple-bind R Q c k h hk =
      triple λ w p. Meets-and_then X R Q w.stdin (c w) k (Triple-at X P R c h w p) hk

  -- The rest may use what holds of the value.
  pub Keeps-bind_fact :
      (F : B → Type 0) (Q : A → List C → Table E → Type 0) (c : M C E B) (k : B → M C E A)
      → Triple X P (λ b calls t. P calls t × F b) c
      → ((b : B) → F b → Triple X P Q (k b))
      → Triple X P Q (c >>= k)
  Keeps-bind_fact F Q c k h hk =
      Triple-bind (λ b calls t. P calls t × F b) Q c k h
        (λ b. triple λ w (p, fb). Triple-at X P Q (k b) (hk b fb) w p)

  pub Keeps-bind :
      (Q : A → List C → Table E → Type 0) (c : M C E B) (k : B → M C E A)
      → Triple X P (λ _. P) c
      → ((b : B) → Triple X P Q (k b))
      → Triple X P Q (c >>= k)
  Keeps-bind Q c k h hk = Triple-bind (λ _. P) Q c k h hk

module _ {C E : Type 0} {X : List C → Type 0} {P : List C → Table E → Type 0} where
  pub Keeps-print : (t : Text) → Triple X P (λ _. P) (print t)
  unfolding print
  Keeps-print t = triple λ w p. (p, refl)

  -- The text is read off the world.
  pub Keeps-print_from : (text : World C E → Text) → Triple X P (λ _. P) (λ w. print (text w) w)
  unfolding print
  Keeps-print_from text = triple λ w p. (p, refl)

  pub Keeps-write_file :
      (path : Text) (text : World C E → Text)
      → ((calls : List C) (t : Table E) → P calls t → X calls)
      → Triple X P (λ _. P) (λ w. write_file path (text w) w)
  unfolding write_file fail
  Keeps-write_file path text px = triple λ w p. elim (Option-cases (w.sinks path)) [
    | inl closed ↦ simp (closed, write_file) (px w.calls w.entries p)
    | inr (sink, opened) ↦ elim (Bool-cases (ltb sink.takes (length (text w)) || not sink.closes)) [
      | inl breaks ↦ simp (opened, breaks, write_file) (px w.calls w.entries p)
      | inr writes ↦ simp (opened, writes, write_file) (p, refl)
    ]
  ]

  pub Keeps-require :
      (b : Bool) (r : Report)
      → ((calls : List C) (t : Table E) → P calls t → X calls)
      → Triple X P (λ _. P) (require b r)
  unfolding require fail
  Keeps-require true r h = triple λ w p. (p, refl)
  Keeps-require false r h = triple λ w p. h w.calls w.entries p

  -- The table is changed by `edit`.
  pub Keeps-edit :
      (edit : Table E → Table E)
      → ((calls : List C) (t : Table E) → P calls t → P calls (edit t))
      → Triple X P (λ _. P) (λ w. set_entries (edit w.entries) w)
  unfolding set_entries
  Keeps-edit edit h = triple λ w p. (h w.calls w.entries p, refl)

  pub Triple-hold_to :
      (Q : Unit {0} → List C → Table E → Type 0) (name : Text) (held : E)
      → ((calls : List C) (t : Table E) → P calls t → Q tt calls (set_entry name held t))
      → Triple X P Q (hold name held)
  unfolding hold set_entries
  Triple-hold_to Q name held h = triple λ w p. (h w.calls w.entries p, refl)

  pub Triple-hold :
      (name : Text) (held : E)
      → ((calls : List C) (t : Table E) → P calls t → P calls (set_entry name held t))
      → Triple X P (λ _. P) (hold name held)
  Triple-hold name held h = Triple-hold_to (λ _. P) name held h

  -- The table may grow while it is not full.
  pub Triple-add_entry_to :
      (Q : Unit {0} → List C → Table E → Type 0) (name : Text) (held : E)
      → ((calls : List C) (t : Table E) → P calls t → X calls)
      → ((calls : List C) (t : Table E)
          → P calls t
          → (length t == max_entries) ≡ false
          → Q tt calls (append_entry name held t))
      → Triple X P Q (add_entry name held)
  unfolding add_entry set_entries die fail
  Triple-add_entry_to Q name held px h = triple λ w p.
      elim (Bool-cases (length w.entries == max_entries)) [
        | inl full ↦ simp (full, add_entry) (px w.calls w.entries p)
        | inr room ↦ simp (room, add_entry) (h w.calls w.entries p room, refl)
      ]

  pub Triple-add_entry :
      (name : Text) (held : E)
      → ((calls : List C) (t : Table E) → P calls t → X calls)
      → ((calls : List C) (t : Table E) → P calls t → P calls (append_entry name held t))
      → Triple X P (λ _. P) (add_entry name held)
  Triple-add_entry name held px h =
      Triple-add_entry_to (λ _. P) name held px (λ calls t p room. h calls t p)

module _ {C E A : Type 0} {X : List C → Type 0} {P : List C → Table E → Type 0} where
  -- The rest may use what the table holds under the name.
  pub Triple-find_entry :
      (Q : A → List C → Table E → Type 0) (name : Text) (missing : M C E A) (found : E → M C E A)
      → Triple X (λ calls t. P calls t × (find_entry name t ≡ none)) Q missing
      → ((held : E)
          → Triple X (λ calls t. P calls t × (find_entry name t ≡ some held)) Q (found held))
      → Triple X P Q (find_then name missing found)
  unfolding find_then
  Triple-find_entry Q name missing found hm hf = triple λ w p.
      elim (Option-cases (find_entry name w.entries)) [
        | inl e ↦ simp (e, find_then) (Triple-at X _ Q missing hm w (p, e))
        | inr (held, e) ↦ simp (e, find_then) (Triple-at X _ Q (found held) (hf held) w (p, e))
      ]

  pub Triple-find_then :
      (Q : A → List C → Table E → Type 0) (name : Text) (missing : M C E A) (found : E → M C E A)
      → Triple X P Q missing
      → ((held : E) → Triple X P Q (found held))
      → Triple X P Q (find_then name missing found)
  unfolding find_then
  Triple-find_then Q name missing found hm hf = triple λ w p.
      elim (Option-cases (find_entry name w.entries)) [
        | inl e ↦ simp (e, find_then) (Triple-at X P Q missing hm w p)
        | inr (held, e) ↦ simp (e, find_then) (Triple-at X P Q (found held) (hf held) w p)
      ]

pub ruleset keeps_rules = (
  Keeps-pure, Triple-fail, Triple-if, Keeps-bind, Keeps-print, Keeps-print_from, Keeps-write_file,
  Keeps-require, Triple-hold, Triple-add_entry, Triple-find_then,
)
