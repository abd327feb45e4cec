-- ===== src/Wasm/Walk/Prints.antt =====
-- Walks over a result, when they check and when they print.
use Prim.Native.String.{String}
use leanexe.Base.{
  ℕ, ◌≡◌, refl, ap, sym, ◌∙◌, ◌⊎◌, inl, inr, Bool, true, false, Bool-cases, ◌++◌, [], Text, codes,
  append_assoc, append-nil, ◌==◌, ltb, if◌then◌else◌, ◌&&◌,
}
use leanexe.Base.Run.{and_then, ok, exited, pure, ◌>>=◌, ◌>>◌}
use leanexe.Native.Memory.{out_of_range, get_word}
use leanexe.Wasm.Machine.{Report, reported, World, M, print, said}
use leanexe.Wasm.Outcome.{die, fail, finish_host, close_control}
use leanexe.Wasm.Memory.{read_u64_at, require_memory, check_range}
use leanexe.Wasm.Walk.{emit, expect_word, check_object, check_record}
use leanexe.Native.Show.{object_magic}

module _ (status : ℕ) (w : World) where
  -- Where the file is refused and where a write to it has failed.
  not_closed : World
  not_closed =
      reported (Report.perror (codes "cannot finish control output"))
        (record w { control_open = false })

  not_written : World
  not_written =
      reported (Report.line "cannot write control output") (record w { control_open = false })

  close_control-exits :
      (code : ℕ) × (w' : World) × ((A : Type 0) → close_control {A = A} status w ≡ exited code w')
  unfolding close_control not_closed not_written
  close_control-exits = elim (Bool-cases w.control_open) [
    | inr closed ↦ (status, w, λ A. simp closed)
    | inl opened ↦ elim (Bool-cases w.control_closes) [
      | inr fails ↦ (1, not_closed, λ A. simp (opened, fails))
      | inl closes ↦ elim (Bool-cases w.control_error) [
        | inl error ↦ (1, not_written, λ A. simp (opened, closes, error))
        | inr none_seen ↦
            (status, record w { control_open = false }, λ A. simp (opened, closes, none_seen))
      ]
    ]
  ]

-- A message ends the process, so nothing runs after it.
pub and_then-die :
    {A B : Type 0} (message : String) (w : World) (k : A → M B)
    → and_then (die message w) k ≡ die message w
unfolding die fail finish_host
and_then-die {A = A} {B = B} message w k =
    let (code, w', e) = close_control-exits 1 _ in ap (λ r. and_then r k) (e A) ∙ sym (e B)

-- In `w`, either the walk that checks succeeds and changes nothing, and the walk that prints gives
-- the same value and adds a text, whatever was printed before; or the walk that checks ends the
-- process. `P` holds of the value.
pub data Walks {A : Type 0} (P : A → Type 0) (c : Bool → M A) (w : World) : Type 0 where
  shows :
      (v : A) (t : Text)
      → P v
      → c false w ≡ ok v w
      → ((s : Text) → c true (said s w) ≡ ok v (said (s ++ t) w))
      → Walks P c w
  refuses : (message : String) → c false w ≡ die message w → Walks P c w

pub said-said : (s t : Text) (w : World) → said t (said s w) ≡ said (s ++ t) w
said-said s t w = ap (λ o. record w { control = o }) (append_assoc w.control s t)

module _ {A : Type 0} (P : A → Type 0) where
  pub Walks-pure : (v : A) (w : World) → P v → Walks P (λ out. pure v) w
  Walks-pure v w p = shows v [] p refl (λ s. ap (λ o. ok v (said o w)) (sym (append-nil s)))

  pub Walks-die : (message : String) (w : World) → Walks P (λ out. die message) w
  Walks-die message w = refuses message refl

pub Walks-bind :
    {A B : Type 0} (P : A → Type 0) (Q : B → Type 0) {c : Bool → M A} {k : Bool → A → M B}
    (w : World)
    → Walks P c w
    → ((v : A) → P v → Walks Q (λ out. k out v) w)
    → Walks Q (λ out. c out >>= k out) w
Walks-bind P Q {k = k} w (refuses message e) h =
    refuses message (rw e (and_then-die message w (k false)))
Walks-bind P Q w (shows v t p e print_it) h = elim (h v p) [
  | refuses message e' ↦ refuses message (rw e e')
  | shows u t' q e' print_rest ↦
      shows u (t ++ t') q (rw e e')
        λ s. rw (print_it s) (print_rest (s ++ t) ∙ ap (λ o. ok u (said o w)) (append_assoc s t t'))
]

abbrev pub Any : {A : Type 0} → A → Type 0
Any a = Unit {0}

pub Walks-then :
    {A B : Type 0} (Q : B → Type 0) {c : Bool → M A} {n : Bool → M B} (w : World)
    → Walks Any c w
    → Walks Q n w
    → Walks Q (λ out. c out >> n out) w
Walks-then Q w hc hn = Walks-bind Any Q w hc (λ v p. hn)

pub Walks-emit : (b : Bool) (t : Text) (w : World) → Walks Any (λ out. emit (out && b) t) w
unfolding emit print
Walks-emit true t w = shows tt t tt refl (λ s. ap (ok tt) (said-said s t w))
Walks-emit false t w = shows tt [] tt refl (λ s. ap (λ o. ok tt (said o w)) (sym (append-nil s)))

pub Walks-emit_all : (t : Text) (w : World) → Walks Any (λ out. emit out t) w
unfolding emit print
Walks-emit_all t w = shows tt t tt refl (λ s. ap (ok tt) (said-said s t w))

pub Walks-require : (message : String) (w : World) → Walks Any (λ out. require_memory message) w
unfolding require_memory
Walks-require message w = elim (Bool-cases w.has_memory) [
  | inr absent ↦ refuses message (simp absent)
  | inl has ↦ shows tt [] tt (simp has) λ s.
      ap (λ b. if b then ok tt (said s w) else die message (said s w)) has
      ∙ ap (λ o. ok tt (said o w)) (sym (append-nil s))
]

pub Walks-range :
    (ptr len : ℕ) (message : String) (w : World) → Walks Any (λ out. check_range ptr len message) w
unfolding check_range
Walks-range ptr len message w = elim (Bool-cases (out_of_range w.store.size ptr len)) [
  | inl outside ↦ refuses message (simp outside)
  | inr inside ↦ shows tt [] tt (simp inside) λ s.
      ap (λ b. if b then die message (said s w) else ok tt (said s w)) inside
      ∙ ap (λ o. ok tt (said o w)) (sym (append-nil s))
]

pub Walks-read : (ptr : ℕ) (w : World) → Walks Any (λ out. read_u64_at ptr) w
unfolding read_u64_at
Walks-read ptr w = Walks-then Any w (Walks-require "missing memory export" w) (
    Walks-then Any w (Walks-range ptr 8 "u64 read is outside memory" w) (
      shows (get_word 8 0 ptr 0 w.store.memory) [] tt refl
        λ s. ap (λ o. ok (get_word 8 0 ptr 0 w.store.memory) (said o w)) (sym (append-nil s))))

pub Walks-expect :
    (ptr value : ℕ) (message : String) (w : World)
    → Walks Any (λ out. expect_word ptr value message) w
unfolding expect_word
Walks-expect ptr value message w = Walks-bind Any Any w (Walks-read ptr w) (λ word p.
    elim (Bool-cases (word == value)) [
      | inl same ↦ rw same (Walks-pure Any tt w tt)
      | inr other ↦ rw other (Walks-die Any message w)
    ])

pub Walks-object :
    (ptr : ℕ) (message : String) (w : World) → Walks Any (λ out. check_object ptr message) w
unfolding check_object
Walks-object ptr message w = elim (Bool-cases (ltb ptr 48)) [
  | inl low ↦ rw low (Walks-die Any message w)
  | inr high ↦ rw high (
      Walks-then Any w (Walks-expect _ object_magic message w)
        (Walks-then Any w (Walks-expect _ 1 message w) (Walks-expect _ 1 message w)))
]

pub Walks-record :
    (ptr width mask : ℕ) (message : String) (w : World)
    → Walks Any (λ out. check_record ptr width mask message) w
unfolding check_record
Walks-record ptr width mask message w =
    Walks-then Any w (Walks-object ptr message w)
      (Walks-then Any w (Walks-expect _ width message w) (Walks-expect _ mask message w))

-- A walk that computes the same is as good.
pub Walks-same :
    {A : Type 0} (P : A → Type 0) {c c' : Bool → M A} (w : World)
    → c false w ≡ c' false w
    → ((s : Text) → c true (said s w) ≡ c' true (said s w))
    → Walks P c' w
    → Walks P c w
Walks-same P w e print_e (shows v t p r print_it) =
    shows v t p (e ∙ r) (λ s. print_e s ∙ print_it s)
Walks-same P w e print_e (refuses message r) = refuses message (e ∙ r)

-- A print made of the two walks adds one whole text to the control output and changes nothing else,
-- or ends the process with a message from the world that it found.
abbrev pub WholeOrNothing : M (Unit {0}) → World → Type 0
WholeOrNothing c w =
    ((t : Text) × (c w ≡ ok tt (said t w))) ⊎ ((message : String) × (c w ≡ die message w))

said_none : (w : World) → said [] w ≡ w
said_none w = ap (λ o. record w { control = o }) (append-nil w.control)

-- What both walks do, when the first starts in `w` and the second too.
pub walk_both :
    {A : Type 0} (P : A → Type 0) (c : Bool → M A) (w : World)
    → Walks P c w
    → ((v : A) × (t : Text) × (c false w ≡ ok v w) × (c true w ≡ ok v (said t w)))
      ⊎ ((message : String) × (c false w ≡ die message w))
walk_both P c w (refuses message e) = inr (message, e)
walk_both P c w (shows v t p e print_it) =
    inl (v, t, e, ap (c true) (sym (said_none w)) ∙ print_it [])

pub Walks-choice :
    {A : Type 0} (P : A → Type 0) (b : Bool) {c d : Bool → M A} (w : World)
    → Walks P c w
    → Walks P d w
    → Walks P (λ out. elim b [ true ↦ c out | false ↦ d out ]) w
Walks-choice P true w hc hd = hc
Walks-choice P false w hc hd = hd
