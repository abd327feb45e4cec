-- ===== src/Native/Memory/Words.antt =====
-- Little-endian words in the module's memory: what the loops of `write_u64_at` and `read_u64_at` do.
use native.Mathlib.Nat.{div-add-mod', div-div-eq-div-mul, mod-lt}
use native.Mathlib.Decide.{dec_lt}
use leanexe.Base.{
  ℕ, zero, suc, ◌+◌, ◌*◌, ◌/◌, ◌%◌, ◌^◌, ◌≤◌, ◌<◌, ◌≡◌, refl, ap, sym, ◌∙◌, ◌⊎◌, inl, arith, bit_or,
}
use leanexe.Base.Bits.{bit_or-shift, pow-pos, pow-add_eight}
use leanexe.Native.Memory.{put_word, get_word, update}

-- Bytes outside the eight are left alone.
pub put_word-outside :
    (n i p v : ℕ) (m : ℕ → ℕ) (q : ℕ) → (q < p + i) ⊎ (p + i + n ≤ q) → put_word n i p v m q ≡ m q
unfolding put_word
put_word-outside zero i p v m q h = refl
put_word-outside (suc n) i p v m q h =
    ground (arith, put_word-outside n (i + 1) p v (update m (p + i) (v / 2 ^ (i * 8) % 256)) q)

update_self : (m : ℕ → ℕ) (p v : ℕ) → update m p v p ≡ v
update_self m p v = ground arith

-- The byte at index `k`.
pub put_word-inside :
    (n i p v : ℕ) (m : ℕ → ℕ) (k : ℕ)
    → i ≤ k
    → k < i + n
    → put_word n i p v m (p + k) ≡ v / 2 ^ (k * 8) % 256
unfolding put_word
put_word-inside zero i p v m k lo hi = absurd (omega arith)
put_word-inside (suc n) i p v m k lo hi = elim (dec_lt i k) [
  | yes more ↦ put_word-inside n (i + 1) p v _ k (omega arith) (omega arith)
  | no same ↦
      let e : i ≡ k = omega arith in
      rw e (put_word-outside n (k + 1) p v _ (p + k) (inl (omega arith)) ∙ update_self m (p + k) _)
]

mod-split : (v k : ℕ) → 0 < k → v % (k * 256) ≡ v % k + v / k % 256 * k
mod-split v k h = omega (
  arith,
  div-add-mod' v (k * 256),
  div-add-mod' v k,
  ap (λ (t : ℕ). t * k) (div-add-mod' (v / k) 256),
  ap (λ (t : ℕ). t * (k * 256)) (div-div-eq-div-mul v k 256),
)

get_word_step :
    (i v d : ℕ)
    → d ≡ v / 2 ^ (i * 8) % 256
    → bit_or (v % 2 ^ (i * 8)) (d * 2 ^ (i * 8)) ≡ v % 2 ^ ((i + 1) * 8)
get_word_step i v d e =
    rw (bit_or-shift (i * 8) (v % 2 ^ (i * 8)) d (mod-lt v (pow-pos (i * 8))), pow-add_eight i, e)
      (sym (mod-split v (2 ^ (i * 8)) (pow-pos (i * 8))))

pub get_word-mod :
    (n i j p v : ℕ) (m : ℕ → ℕ)
    → ((k : ℕ) → i ≤ k → k < i + n → m (p + k) ≡ v / 2 ^ (k * 8) % 256)
    → i + n ≡ j
    → get_word n i p (v % 2 ^ (i * 8)) m ≡ v % 2 ^ (j * 8)
unfolding get_word
get_word-mod zero i j p v m h e = let e' : i ≡ j = omega arith in rw e'
get_word-mod (suc n) i j p v m h e =
    rw (get_word_step i v (m (p + i)) (h i (omega arith) (omega arith)))
      (get_word-mod n (i + 1) j p v m (λ k lo hi. h k (omega arith) (omega arith)) (omega arith))

-- Reading the eight bytes that a write has left gives the word.
pub get_word-put_word :
    (p v : ℕ) (m : ℕ → ℕ) → v < 2 ^ 64 → get_word 8 0 p 0 (put_word 8 0 p v m) ≡ v
get_word-put_word p v m h =
    let none_yet : 0 ≡ v % 2 ^ (0 * 8) = omega arith in
    let all : v % 2 ^ (8 * 8) ≡ v = omega arith in
    ap (λ t. get_word 8 0 p t (put_word 8 0 p v m)) none_yet
    ∙ get_word-mod 8 0 8 p v _ (put_word-inside 8 0 p v m) refl
    ∙ all

-- A read sees the eight bytes and nothing else.
pub get_word-same :
    (n i p acc : ℕ) (m m' : ℕ → ℕ)
    → ((k : ℕ) → i ≤ k → k < i + n → m (p + k) ≡ m' (p + k))
    → get_word n i p acc m ≡ get_word n i p acc m'
unfolding get_word
get_word-same zero i p acc m m' h = refl
get_word-same (suc n) i p acc m m' h =
    rw (h i (omega arith) (omega arith))
      (get_word-same n (i + 1) p _ m m' (λ k lo hi. h k (omega arith) (omega arith)))
