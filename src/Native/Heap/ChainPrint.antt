-- ===== src/Native/Heap/ChainPrint.antt =====
-- `print_u64_chain` on a list that the host built.
use leanexe.Base.{
  ℕ, zero, suc, ◌+◌, ◌*◌, ◌/◌, ◌^◌, ◌≤◌, ◌<◌, ◌≡◌, refl, ◌∙◌, ap, sym, Bool, true, false, not, List,
  [], ◌∷◌, ◌++◌, append_assoc, append-nil, arith, length, Text, codes, add64, ltb, ◌==◌,
  if◌then◌else◌,
}
use leanexe.Base.Decimal.{decimal}
use leanexe.Base.Run.{ok, ◌>>=◌}
use leanexe.Native.Machine.{Store, Module, World, print}
use leanexe.Native.Memory.{memory_len}
use leanexe.Native.Memory.Access.{word_at, read-ok}
use leanexe.Native.Memory.Blocks.{Small}
use leanexe.Native.Alloc.{alloc_u64_chain}
use leanexe.Native.Show.{print_if, print_cell, chain_loop, print_u64_chain}
use leanexe.Native.Heap.{top, Fits, Allocator, IsRecord}
use leanexe.Native.Heap.Checks.{said, said-said, check_record-ok}
use leanexe.Native.Heap.Chain.{IsChain, alloc_u64_chain-Chains}

-- The elements as the loop prints them from round `k` on.
chain_text : ℕ → List ℕ → Text
chain_text k [] = []
chain_text k (x ∷ xs) = (if k == 0 then [] else codes ", ") ++ (decimal x ++ chain_text (k + 1) xs)

-- The elements in decimal, with a comma and a space between them.
unfoldable pub separated : List ℕ → Text
separated [] = []
separated (x ∷ []) = decimal x
separated (x ∷ y ∷ xs) = decimal x ++ (codes ", " ++ separated (y ∷ xs))

-- The line that stands for a list.
unfoldable pub list_line : List ℕ → Text
list_line xs = codes "[" ++ (separated xs ++ codes "]\n")

print_if-ok :
    (b : Bool) (t : Text) (w : World) → print_if (not b) t w ≡ ok tt (said (if b then [] else t) w)
unfolding print_if print
print_if-ok true t w = ap (λ o. ok tt (record w { out = o })) (sym (append-nil w.out))
print_if-ok false t w = refl

print_cell-ok :
    (k a x q : ℕ) (w : World)
    → a + 64 ≤ memory_len w
    → memory_len w < 2 ^ 64
    → IsRecord w.store.memory a 2 2 (x ∷ q ∷ [])
    → print_cell k (a + 48) w ≡ ok q (said ((if k == 0 then [] else codes ", ") ++ decimal x) w)
unfolding print_cell print
print_cell-ok k a x q w inside short r =
    let e48 : a + 24 + 8 + 8 + 8 ≡ a + 48 = omega arith in
    let e56 : a + 48 + 8 ≡ a + 56 = omega arith in
    let e8 : add64 (a + 48) 8 ≡ a + 56 = omega arith in
    let head : word_at w.store.memory (a + 48) ≡ x = rw e48 at (r.body.1.1.1.0) in
    let tail : word_at w.store.memory (a + 56) ≡ q = rw (e48, e56) at (r.body.1.1.1.1.0) in
    let comma = if k == 0 then [] else codes ", " in
    let w1 = said comma w in
    let w2 = said (decimal x) w1 in
    rw
      (
        check_record-ok a 2 2 (x ∷ q ∷ []) _ w (omega arith) short r,
        print_if-ok (k == 0) (codes ", ") w,
        read-ok (a + 48) w1 (omega arith),
        e8,
        head,
        read-ok (a + 56) w2 (omega arith),
        tail,
      )
      (ap (ok q) (said-said comma (decimal x) w))

-- The loop's rounds: at most one for each element and one more.
chain_loop-ok :
    (f k lo hi p : ℕ) (xs : List ℕ) (w : World)
    → IsChain w.store.memory lo hi p xs
    → hi ≤ memory_len w
    → memory_len w < 2 ^ 64
    → k + length xs ≤ memory_len w / 16 + 1
    → length xs < f
    → chain_loop f k p w ≡ ok tt (said (chain_text k xs) w)
unfolding chain_loop chain_text
chain_loop-ok zero k lo hi p xs w c h short count fuel = absurd (omega arith)
chain_loop-ok (suc f) k lo hi p [] w c h short count fuel =
    let done : (p == 0) ≡ true = ground arith in
    rw (done, chain_loop) (ap (λ o. ok tt (record w { out = o })) (sym (append-nil w.out)))
chain_loop-ok (suc f) k lo hi p (x ∷ xs) w (a, q, e, low, high, r, rest) h short count fuel =
    let more : (p == 0) ≡ false = ground arith in
    let few : ltb (memory_len w / 16) k ≡ false = ground arith in
    let text = (if k == 0 then [] else codes ", ") ++ decimal x in
    rw (more, chain_loop, few, e, print_cell-ok k a x q w (omega arith) short r)
      (chain_loop-ok f (k + 1) lo a q xs (said text w) rest (omega arith) short (omega arith)
          (omega arith)
        ∙ ap (ok tt) (
            said-said text (chain_text (k + 1) xs) w
            ∙ ap (λ t. said t w)
                (append_assoc (if k == 0 then [] else codes ", ") (decimal x)
                  (chain_text (k + 1) xs))))

-- From the second round on each element has a separator before it.
chain_text_later :
    (k : ℕ) (x : ℕ) (xs : List ℕ) → 0 < k → chain_text k (x ∷ xs) ≡ codes ", " ++ separated (x ∷ xs)
unfolding chain_text separated
chain_text_later k x [] h = let later : (k == 0) ≡ false = ground arith in rw (later, append-nil)
chain_text_later k x (y ∷ xs) h =
    let later : (k == 0) ≡ false = ground arith in
    rw (later, chain_text_later (k + 1) y xs (omega arith))

chain_text-separated : (xs : List ℕ) → chain_text 0 xs ≡ separated xs
unfolding chain_text separated
chain_text-separated [] = refl
chain_text-separated (x ∷ []) = append-nil (decimal x)
chain_text-separated (x ∷ y ∷ xs) = ap (λ t. decimal x ++ t) (chain_text_later 1 y xs (omega arith))

-- A chain between `lo` and `hi` has at most one record for each 64 bytes.
IsChain-length :
    (m : ℕ → ℕ) (lo hi p : ℕ) (xs : List ℕ)
    → IsChain m lo hi p xs
    → lo ≤ hi
    → 64 * length xs + lo ≤ hi
IsChain-length m lo hi p [] c h = omega arith
IsChain-length m lo hi p (x ∷ xs) (a, q, e, low, high, r, rest) h =
    omega (arith, IsChain-length m lo a q xs rest low)

-- A list in memory is printed as its line, in the world that it stands in.
pub print_u64_chain-ok :
    (lo hi p : ℕ) (xs : List ℕ) (w : World)
    → IsChain w.store.memory lo hi p xs
    → lo ≤ hi
    → hi ≤ memory_len w
    → memory_len w < 2 ^ 64
    → print_u64_chain p w ≡ ok tt (said (list_line xs) w)
unfolding print_u64_chain print list_line
print_u64_chain-ok lo hi p xs w c h inside short =
    let few = IsChain-length w.store.memory lo hi p xs c h in
    let w1 = said (codes "[") w in
    rw
      (
        chain_loop-ok (memory_len w / 16 + 2) 0 lo hi p xs w1 c inside short (omega arith)
            (omega arith),
        chain_text-separated xs,
      )
      (ap (ok tt) (
        said-said (separated xs) (codes "]\n") w1
        ∙ said-said (codes "[") (separated xs ++ codes "]\n") w))

-- A list placed by `alloc_u64_chain` is printed by `print_u64_chain` as `[x, y, ...]`: for every list
-- of 64-bit words and every module whose `alloc` meets the contract `Allocator`, with no block on the
-- free list and 71 bytes of room for each element, the two calls succeed one after the other, the line is added to standard output,
-- and nothing else of the world changes but the module's store.
pub print-alloc_u64_chain :
    (m : Module) (al : Allocator m) (xs : List ℕ) (w : World)
    → Small xs
    → Fits w.store
    → top w.store + 71 * length xs ≤ al.limit
    → (s : Store) × ((alloc_u64_chain m xs >>= print_u64_chain) w
        ≡ ok tt (said (list_line xs) (record w { store = s })))
print-alloc_u64_chain m al xs w small fits room =
    let (p, s, built, short, grown, chain) = alloc_u64_chain-Chains m al xs w small fits room in
    (
      s,
      rw built (
          print_u64_chain-ok (top w.store) (top s) p xs (record w { store = s }) chain grown.grows
            grown.fits.inside (omega (arith, grown.fits.pages))),
    )
