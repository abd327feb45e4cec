-- ===== src/Native/Heap/Runtime.antt =====
-- The `alloc` that the build puts into every module: `allocBody` of LeanExe/Runtime/Defs.lean, and
-- `FixedArrayBump` and `FixedArrayHeader` of LeanExe/ProofKit. What it does with the blocks of a free
-- list, or for a block that ends above 2 ^ 32, where `i32.wrap_i64` cuts addresses, is a parameter,
-- `other`. The pages that the engine grants are at most `most`.
use leanexe.Base.{
  ℕ, ◌==◌, if◌then◌else◌, ◌+◌, ◌-◌, ◌*◌, ◌/◌, ◌^◌, ◌≤◌, ◌<◌, ltb, leb, ◌&&◌, true, false, ◌≡◌, refl,
  sym, List, [], ◌∷◌, some, arith, codes, get_or, add64, sub64,
}
use leanexe.Native.Machine.{Store, Export, Module, find_export}
use leanexe.Native.Memory.Blocks.{put_words, put_words-below, put_words-Holds}
use leanexe.Native.Show.{object_magic}
use leanexe.Native.Heap.{top, Fits, Placed, Allocator}

-- The bytes of the payload: a multiple of 8, and at least 8.
unfoldable pub needed : ℕ → ℕ
needed len = let bytes = add64 len 7 / 8 * 8 in if ltb bytes 8 then 8 else bytes

-- The header of an array of one-word elements without child pointers.
unfoldable pub header : ℕ → List ℕ
header need = object_magic ∷ 1 ∷ need ∷ 2 ∷ 1 ∷ 0 ∷ []

-- `unreachable`.
unfoldable pub trap : Store → Store × List ℕ
trap s = (record s { status = 1 }, [])

-- `memory.grow` to `required` pages, when there are fewer.
unfoldable pub ensured : ℕ → ℕ → ℕ
ensured required pages = if ltb pages required then required else pages

-- Global 0 is the top, global 2 counts the allocations.
unfoldable pub installed : ℕ → (ℕ → ℕ) → ℕ → ℕ
installed end globals i = if i == 0 then end else if i == 2 then add64 (globals 2) 1 else globals i

unfoldable pub bump : ℕ → ℕ → Store → Store × List ℕ
bump most need s =
    let base = s.globals 0 in
    let end = add64 (add64 base 48) need in
    let required = sub64 end 1 / 65536 + 1 in
    if ltb end base then trap s else if ltb s.pages required && ltb most required then trap s else (
      record s {
        pages = ensured required s.pages;
        memory = put_words base (header need) s.memory;
        globals = installed end s.globals;
      },
      add64 base 48 ∷ [],
    )

unfoldable pub alloc_body : (ℕ → Store → Store × List ℕ) → ℕ → List ℕ → Store → Store × List ℕ
alloc_body other most args s =
    let need = needed (get_or args 0 0) in
    if s.globals 1 == 0 && leb (s.globals 0 + 48 + need) (2 ^ 32)
    then bump most need s
    else other need s

needed-bounds : (len : ℕ) → 0 < len → len < 2 ^ 40 → (len ≤ needed len) × (needed len ≤ len + 7)
unfolding needed
needed-bounds len positive small = (ground arith, ground arith)

-- The store after the block is taken, without wrap-around.
abbrev bumped : ℕ → Store → Store
bumped need s = record s {
  pages = ensured ((top s + 48 + need - 1) / 65536 + 1) s.pages;
  memory = put_words (top s) (header need) s.memory;
  globals = installed (top s + 48 + need) s.globals;
}

bump-ok :
    (most need : ℕ) (s : Store)
    → top s + 48 + need ≤ most * 65536
    → most ≤ 65535
    → 0 < need
    → bump most need s ≡ (bumped need s, (top s + 48) ∷ [])
unfolding bump
bump-ok most need s room small some_bytes =
    let e48 : add64 (top s) 48 ≡ top s + 48 = omega arith in
    let end : add64 (top s + 48) need ≡ top s + 48 + need = omega arith in
    let last : sub64 (top s + 48 + need) 1 ≡ top s + 48 + need - 1 = omega arith in
    let up : ltb (top s + 48 + need) (top s) ≡ false = ground arith in
    let granted : ltb most ((top s + 48 + need - 1) / 65536 + 1) ≡ false = ground arith in
    ground (arith, e48, end, last, up, granted)

ensured-bounds :
    (n p : ℕ)
    → n < 2 ^ 32
    → p < 2 ^ 32
    → (p ≤ ensured n p) × (n ≤ ensured n p) × (ensured n p < 2 ^ 32)
unfolding ensured
ensured-bounds n p h k = (ground arith, ground arith, ground arith)

-- The call with an empty free list and room for the block.
pub alloc_body-Placed :
    (other : ℕ → Store → Store × List ℕ) (most : ℕ)
    → most ≤ 65535
    → (len : ℕ) (s : Store) → 0 < len
    → Fits s
    → top s + 55 + len ≤ most * 65536
    → (t : Store) × (alloc_body other most (len ∷ []) (record s { status = 0 })
        ≡ (t, (top s + 48) ∷ []))
      × Placed len s t
unfolding alloc_body header installed
alloc_body-Placed other most small len s positive fits room =
    let (enough, little) = needed-bounds len positive (omega arith) in
    let need = needed len in
    let (more, required, at_most) =
      ensured-bounds ((top s + 48 + need - 1) / 65536 + 1) s.pages (omega arith) fits.pages in
    let words = put_words-Holds (top s) (header need) s.memory (
      omega arith,
      (omega arith, (omega arith, (omega arith, (omega arith, (omega arith, tt))))),
    ) in
    let low : leb (top s + 48 + need) (2 ^ 32) ≡ true = ground (arith, little, room, small) in
    (
      bumped need (record s { status = 0 }),
      rw (fits.none_free, ◌==◌, low)
          (bump-ok most need (record s { status = 0 }) (omega arith) small (omega arith)),
      record {
        status = refl;
        grown = record {
          fits = record { pages = at_most; inside = omega arith; none_free = fits.none_free };
          grows = omega arith;
          bounded = omega arith;
          keeps = λ a lo hi. sym (put_words-below (top s) (header need) s.memory a hi);
        };
        room = omega arith;
        magic = words.0;
        count = words.1.0;
      },
    )

-- The `alloc` of the module, when the engine grants at most `most` pages.
abbrev pub alloc_export : (ℕ → Store → Store × List ℕ) → ℕ → Export
alloc_export other most = record {
  name = codes "alloc";
  params = codes "l";
  results = codes "l";
  call = alloc_body other most;
}

-- Whatever it does in the other cases, it meets what the host relies on.
abbrev pub runtime_allocator :
    (other : ℕ → Store → Store × List ℕ) (most : ℕ)
    → most ≤ 65535
    → (m : Module) → find_export m (codes "alloc") ≡ some (alloc_export other most)
    → Allocator m
runtime_allocator other most small m found = record {
  export = alloc_export other most;
  found = found;
  limit = most * 65536;
  places = alloc_body-Placed other most small;
}
