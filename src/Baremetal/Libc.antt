-- ===== src/Baremetal/Libc.antt =====
-- The string functions of tools/baremetal/libc/libc.c, over the host's memory. Their loops run on
-- fuel, one round for each byte of the string; `none` stands for a loop that needs more.
pub mod Strings
pub mod Numbers
use leanexe.Base.{
  ℕ, zero, suc, ◌+◌, ◌-◌, ◌*◌, ◌%◌, ◌&&◌, ◌||◌, not, Option, none, some, List, [], ◌∷◌, ltb, leb,
  ◌==◌, if◌then◌else◌, Text, u64_mod, add64,
}
use leanexe.Base.Decimal.{is_digit}
use leanexe.Native.Memory.{update}

-- An `int`: `negsuc n` is `- 1 - n`.
pub data ℤ : Type 0 where
  pos : ℕ → ℤ
  negsuc : ℕ → ℤ

-- The difference of two bytes.
unfoldable pub diff : ℕ → ℕ → ℤ
diff a b = if ltb a b then ℤ.negsuc (b - a - 1) else ℤ.pos (a - b)

unfoldable pub strlen_loop : ℕ → (ℕ → ℕ) → ℕ → ℕ → Option ℕ
strlen_loop zero m s n = none
strlen_loop (suc f) m s n =
    let rest = strlen_loop f m s (n + 1) in if m (s + n) == 0 then some n else rest

unfoldable pub strlen : ℕ → (ℕ → ℕ) → ℕ → Option ℕ
strlen f m s = strlen_loop f m s 0

unfoldable pub strcmp : ℕ → (ℕ → ℕ) → ℕ → ℕ → Option ℤ
strcmp zero m a b = none
strcmp (suc f) m a b =
    let rest = strcmp f m (a + 1) (b + 1) in
    if not (m a == 0) && (m a == m b) then rest else some (diff (m a) (m b))

-- The loop counts `n` down, so it needs no fuel.
unfoldable pub strncmp : (ℕ → ℕ) → ℕ → ℕ → ℕ → ℤ
strncmp m a b zero = ℤ.pos 0
strncmp m a b (suc n) =
    let rest = strncmp m (a + 1) (b + 1) n in
    if not (m a == m b) || m a == 0 then diff (m a) (m b) else rest

-- The address of the first byte `c`; `some none` where the string has none.
unfoldable pub strchr : ℕ → (ℕ → ℕ) → ℕ → ℕ → Option (Option ℕ)
strchr zero m s c = none
strchr (suc f) m s c =
    let rest = strchr f m (s + 1) c in
    if m s == c then some (some s) else if m s == 0 then some none else rest

unfoldable pub memcpy : ℕ → ℕ → ℕ → (ℕ → ℕ) → ℕ → ℕ
memcpy dst src zero m = m
memcpy dst src (suc n) m = memcpy (dst + 1) (src + 1) n (update m dst (m src))

-- The value modulo 2^64, and the address of the first byte that is no digit.
unfoldable pub strtoull_loop : ℕ → (ℕ → ℕ) → ℕ → ℕ → Option (ℕ × ℕ)
strtoull_loop zero m c v = none
strtoull_loop (suc f) m c v =
    let rest = strtoull_loop f m (c + 1) (add64 (v * 10) (m c - b'0')) in
    if is_digit (m c) then rest else some (v, c)

unfoldable pub strtoull : ℕ → (ℕ → ℕ) → ℕ → Option (ℕ × ℕ)
strtoull f m s = strtoull_loop f m s 0

-- The addresses of `n` arguments, the first at `p`.
unfoldable pub read_args : ℕ → ℕ → (ℕ → ℕ) → ℕ → Option (List ℕ)
read_args f zero m p = some []
read_args f (suc n) m p = elim (strlen f m p) [
  | none ↦ none
  | some len ↦ elim (read_args f n m (p + len + 1)) [ none ↦ none | some argv ↦ some (p ∷ argv) ]
]

-- The argument block of `main`: `some none` where it is refused. Each string has `f` rounds. The
-- count is an `int`: the value's low 32 bits, negative from 2^31 on.
unfoldable pub read_block : ℕ → (ℕ → ℕ) → ℕ → Option (Option (List ℕ))
read_block f m p = elim (strtoull f m p) [
  | none ↦ none
  | some (value, end) ↦ elim (strlen f m p) [
    | none ↦ none
    | some len ↦
        let argc = value % 0x100000000 in
        if ltb argc 1 || ltb 299 argc
        then some none
        else elim (read_args f argc m (p + len + 1)) [ none ↦ none | some argv ↦ some (some argv) ]
  ]
]
