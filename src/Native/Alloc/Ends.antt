-- ===== src/Native/Alloc/Ends.antt =====
-- The reading of a tree's description ends, whatever the text says and whatever the module's `alloc`
-- does.
use Prim.Native.String.{String}
use leanexe.Base.{
  ℕ, zero, suc, ◌+◌, ◌≡◌, ◌≤◌, ◌<◌, inl, inr, Bool, Bool-cases, true, false, ◌||◌, Option,
  Option-cases, none, some, List, [], ◌∷◌, leb, ◌==◌, if◌then◌else◌, Text, text_eq, codes, length,
  arith, get_or,
}
use leanexe.Base.Run.{ok, exited, pure, ◌>>=◌}
use leanexe.Base.Run.Halting.{
  Halts, Halting, halting, Halting-at, Halting-bind, Halting-then, Halting-if, Halting-pure,
}
use leanexe.Native.Machine.{World, M, Module, Export, die, fail, find_export, host_invoke}
use leanexe.Native.Memory.{memory_len, out_of_range, check_range, write_u64_at}
use leanexe.Native.Parse.{break_comma, read_token, host_parse_u64}
use leanexe.Native.Alloc.{call_alloc, write_header, alloc_node, alloc_u64_tree}

abbrev Always : World → Type 0
Always w = Unit

Halting-die : {A : Type 0} (P : A → Type 0) (message : String) → Halting Always P (die message)
unfolding die fail
Halting-die P message = halting λ w i. tt

Halting-check_range :
    (ptr len : ℕ) (message : String) → Halting Always (λ _. Unit) (check_range ptr len message)
unfolding check_range die fail
Halting-check_range ptr len message = halting λ w i.
    elim (Bool-cases (out_of_range (memory_len w) ptr len)) [
      | inl refused ↦ simp (refused, check_range) tt
      | inr inside ↦ simp (inside, check_range) (tt, tt)
    ]

Halting-write_u64_at : (ptr value : ℕ) → Halting Always (λ _. Unit) (write_u64_at ptr value)
unfolding write_u64_at
Halting-write_u64_at ptr value =
    Halting-then (λ _. Unit) (check_range ptr 8 "u64 write is outside memory") _
      (Halting-check_range ptr 8 "u64 write is outside memory") (λ c. halting λ w i. (tt, tt))

Halts-either :
    {A : Type 0} (b : Bool) (a : A) (w : World) (code : ℕ) (w' : World)
    → Halts Always (λ _. Unit) (if b then ok a w else exited code w')
Halts-either true a w code w' = (tt, tt)
Halts-either false a w code w' = tt

Halting-host_invoke : (e : Export) (args : List ℕ) → Halting Always (λ _. Unit) (host_invoke e args)
unfolding host_invoke fail
Halting-host_invoke e args = halting λ w i.
    let (s, results) = e.call args (record (w.store) { status = 0 }) in
    Halts-either (s.status == 0) results (record w { store = s }) 2 _

Halting-host_parse_u64 : (text : Text) → Halting Always (λ _. Unit) (host_parse_u64 text)
unfolding host_parse_u64
Halting-host_parse_u64 text = search (Halting-if, Halting-die, Halting-pure)

Halting-call_alloc : (m : Module) (len : ℕ) → Halting Always (λ _. Unit) (call_alloc m len)
unfolding call_alloc
Halting-call_alloc m len = elim (Option-cases (find_export m (codes "alloc"))) [
  | inl missing ↦ simp (missing, call_alloc) (Halting-die (λ _. Unit) "missing alloc export")
  | inr (e, found) ↦
      simp (found, call_alloc)
        (Halting-then (λ _. Unit) (host_invoke e (len ∷ [])) _ (Halting-host_invoke e (len ∷ []))
          (λ results. Halting-pure (λ _. Unit) (get_or results 0 0) tt))
]

ruleset cell_rules = (Halting-then, Halting-write_u64_at, Halting-call_alloc, Halting-pure)

Halting-write_header :
    (cell width mask : ℕ) → Halting Always (λ _. Unit) (write_header cell width mask)
unfolding write_header
Halting-write_header cell width mask = search cell_rules depth 10

Halting-alloc_node :
    (m : Module) (left key right : ℕ) → Halting Always (λ _. Unit) (alloc_node m left key right)
unfolding alloc_node
Halting-alloc_node m left key right = search (cell_rules, Halting-write_header) depth 12

-- What stands behind a text's first comma; nothing where there is none.
behind : Option Text → Text
behind o = elim o [ none ↦ [] | some s ↦ s ]

length-behind : (text : Text) → length (behind (break_comma text).1) ≤ length text
unfolding break_comma behind
length-behind [] = omega arith
length-behind (c ∷ s) = elim (Bool-cases (c == b',')) [
  | inl comma ↦ simp (comma, break_comma) (omega arith)
  | inr other ↦ simp (other, break_comma) (omega (arith, length-behind s))
]

length-break_comma :
    (text : Text)
    → (length (break_comma text).0 == 0) ≡ false
    → length (behind (break_comma text).1) < length text
unfolding break_comma behind
length-break_comma [] h = absurd (ground (arith, h))
length-break_comma (c ∷ s) h = elim (Bool-cases (c == b',')) [
  | inl comma ↦ simp (comma, break_comma) (omega arith)
  | inr other ↦ simp (other, break_comma) (omega (arith, length-behind s))
]

-- The text behind a token is shorter.
abbrev Shorter : {A : Type 0} → Text → A × Text → Type 0
Shorter text p = length p.1 < length text

has_token :
    (text : Text) (b : Bool)
    → (length (break_comma text).0 == 0 || b) ≡ false
    → length (behind (break_comma text).1) < length text
has_token text b h = length-break_comma text (ground (arith, h))

Halting-read_token : (size : ℕ) (text : Text) → Halting Always (Shorter text) (read_token size text)
unfolding read_token behind
Halting-read_token size text =
    elim (Bool-cases (length (break_comma text).0 == 0 || leb size (length (break_comma text).0))) [
      | inl bad ↦ simp (bad, read_token) (Halting-die (Shorter text) "bad tree description")
      | inr good ↦
          simp (good, read_token)
            (Halting-pure (Shorter text) ((break_comma text).0, behind (break_comma text).1)
              (has_token text (leb size (length (break_comma text).0)) good))
    ]

-- A tree behind its first token, with a round less.
branch : Module → ℕ → Text → Text → M (ℕ × Text)
branch m f token text = elim (text_eq token (codes ".")) [
  | true ↦ pure (0, text)
  | false ↦ do
    key ← host_parse_u64 token
    (left, text) ← alloc_u64_tree m f text
    (right, text) ← alloc_u64_tree m f text
    cell ← alloc_node m left key right
    pure (cell, text)
]

Halting-branch :
    (m : Module) (f : ℕ) (text token rest : Text)
    → length rest < length text
    → ((t : Text) → length t < f → Halting Always (Shorter t) (alloc_u64_tree m f t))
    → length text < suc f
    → Halting Always (Shorter text) (branch m f token rest)
unfolding branch
Halting-branch m f text token rest less subtree h = elim (Bool-cases (text_eq token (codes "."))) [
  | inl leaf ↦ simp (leaf, branch) (Halting-pure (Shorter text) (0, rest) less)
  | inr node ↦
      simp (node, branch)
        (Halting-then (Shorter text) (host_parse_u64 token) _ (Halting-host_parse_u64 token) λ key.
          Halting-bind (Shorter rest) (Shorter text) (alloc_u64_tree m f rest) _
            (subtree rest (omega (arith, less, h)))
            λ (left, behind_left) shorter.
              Halting-bind (Shorter behind_left) (Shorter text) (alloc_u64_tree m f behind_left) _
                (subtree behind_left (omega (arith, shorter, less, h)))
                λ (right, behind_right) shortest.
                  Halting-then (Shorter text) (alloc_node m left key right) _
                    (Halting-alloc_node m left key right)
                    λ cell.
                      Halting-pure (Shorter text) (cell, behind_right)
                        (omega (arith, shortest, shorter, less)))
]

-- Every level of the recursion reads a token.
Halting-tree :
    (m : Module) (f : ℕ) (text : Text)
    → length text < f
    → Halting Always (Shorter text) (alloc_u64_tree m f text)
unfolding alloc_u64_tree branch
Halting-tree m zero text h = absurd (omega (arith, h))
Halting-tree m (suc f) text h =
    Halting-bind (Shorter text) (Shorter text) (read_token 32 text) _ (Halting-read_token 32 text)
      λ (token, rest) less. Halting-branch m f text token rest less (Halting-tree m f) h

-- For every text, every module, whatever its `alloc` does, and every state, the placing of a tree's
-- description with a round for each byte of the text and one more returns or ends the process, and
-- where it returns, the text that is left is shorter.
pub alloc_u64_tree-Halts :
    (m : Module) (text : Text) (w : World)
    → Halts (λ w'. Unit) (λ p. length p.1 < length text) (alloc_u64_tree m (length text + 1) text w)
alloc_u64_tree-Halts m text w =
    Halting-at Always (Shorter text) _ (Halting-tree m (length text + 1) text (omega arith)) w tt
