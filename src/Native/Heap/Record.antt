-- ===== src/Native/Heap/Record.antt =====
-- The host's building of one record: the header words and the slots behind the allocator's own.
use leanexe.Base.{
  ℕ, ◌+◌, ◌*◌, ◌^◌, ◌≤◌, ◌<◌, ◌≡◌, refl, sym, ◌∙◌, List, [], ◌∷◌, arith, length, add64, sub64,
}
use leanexe.Base.Run.{Run, ok, pure, ◌>>◌}
use leanexe.Native.Machine.{Store, Module, World, host_invoke}
use leanexe.Native.Memory.{memory_len, set_memory, write_u64_at}
use leanexe.Native.Memory.Access.{stored, write-ok}
use leanexe.Native.Memory.Blocks.{
  put_words, Small, Agree, word_at-Agree, put_words-below, put_words-Holds, Holds-Agree,
}
use leanexe.Native.Alloc.{call_alloc, write_header, alloc_cell, alloc_node}
use leanexe.Native.Heap.{top, Fits, Grown, Placed, Allocator, IsRecord}

pub IsRecord-Agree :
    (lo hi a width mask : ℕ) (slots : List ℕ) (m m' : ℕ → ℕ)
    → Agree lo hi m m'
    → lo ≤ a
    → a + 48 + 8 * length slots ≤ hi
    → IsRecord m a width mask slots
    → IsRecord m' a width mask slots
IsRecord-Agree lo hi a width mask slots m m' same h k r = record {
  magic = sym (word_at-Agree lo hi a m m' same h (omega arith)) ∙ r.magic;
  count = sym (word_at-Agree lo hi (a + 8) m m' same (omega arith) (omega arith)) ∙ r.count;
  body =
      Holds-Agree lo hi (a + 24) (1 ∷ width ∷ mask ∷ slots) m m' same (omega arith) (omega arith)
        r.body;
}

-- The world after the words `xs` are stored from `p` on.
abbrev pub filled : ℕ → List ℕ → World → World
filled p xs w = set_memory (put_words p xs w.store.memory) w

module _ (a : ℕ) (w : World) where
  write_header-ok :
      (width mask : ℕ)
      → a + 48 ≤ memory_len w
      → a + 48 < 2 ^ 64
      → write_header (a + 48) width mask w ≡ ok tt (filled (a + 24) (1 ∷ width ∷ mask ∷ []) w)
  unfolding write_header put_words
  write_header-ok width mask h k =
      let e24 : sub64 (a + 48) 24 ≡ a + 24 = omega arith in
      let e16 : sub64 (a + 48) 16 ≡ a + 24 + 8 = omega arith in
      let e8 : sub64 (a + 48) 8 ≡ a + 24 + 8 + 8 = omega arith in
      let w1 = stored (a + 24) 1 w in
      let w2 = stored (a + 24 + 8) width w1 in
      rw (
        e24,
        e16,
        e8,
        write-ok (a + 24) 1 w (omega arith),
        write-ok (a + 24 + 8) width w1 (omega arith),
        write-ok (a + 24 + 8 + 8) mask w2 (omega arith),
      )

  -- The last two places of the record's words, as the slots' addresses are written.
  slot_0 : a + 24 + 8 + 8 + 8 ≡ a + 48
  slot_0 = omega arith

  slot_1 : a + 48 + 8 ≡ a + 56
  slot_1 = omega arith

  slot_2 : a + 56 + 8 ≡ a + 64
  slot_2 = omega arith

  fill_cell-ok :
      (value next : ℕ)
      → a + 64 ≤ memory_len w
      → a + 64 < 2 ^ 64
      → (do
        write_header (a + 48) 2 2
        write_u64_at (a + 48) value
        write_u64_at (add64 (a + 48) 8) next
        pure (a + 48))
          w
        ≡ ok (a + 48) (filled (a + 24) (1 ∷ 2 ∷ 2 ∷ value ∷ next ∷ []) w)
  unfolding put_words
  fill_cell-ok value next h k =
      let w2 = filled (a + 24) (1 ∷ 2 ∷ 2 ∷ []) w in
      let w3 = stored (a + 48) value w2 in
      let e8 : add64 (a + 48) 8 ≡ a + 56 = omega arith in
      rw
        (
          write_header-ok 2 2 (omega arith) (omega arith),
          write-ok (a + 48) value w2 (omega arith),
          e8,
          write-ok (a + 56) next w3 (omega arith),
        )
        (rw (slot_0, slot_1))

  fill_node-ok :
      (left key right : ℕ)
      → a + 72 ≤ memory_len w
      → a + 72 < 2 ^ 64
      → (do
        write_header (a + 48) 3 5
        write_u64_at (a + 48) left
        write_u64_at (add64 (a + 48) 8) key
        write_u64_at (add64 (a + 48) 16) right
        pure (a + 48))
          w
        ≡ ok (a + 48) (filled (a + 24) (1 ∷ 3 ∷ 5 ∷ left ∷ key ∷ right ∷ []) w)
  unfolding put_words
  fill_node-ok left key right h k =
      let w2 = filled (a + 24) (1 ∷ 3 ∷ 5 ∷ []) w in
      let w3 = stored (a + 48) left w2 in
      let w4 = stored (a + 56) key w3 in
      let e8 : add64 (a + 48) 8 ≡ a + 56 = omega arith in
      let e16 : add64 (a + 48) 16 ≡ a + 64 = omega arith in
      rw
        (
          write_header-ok 3 5 (omega arith) (omega arith),
          write-ok (a + 48) left w2 (omega arith),
          e8,
          e16,
          write-ok (a + 56) key w3 (omega arith),
          write-ok (a + 64) right w4 (omega arith),
        )
        (rw (slot_0, slot_1, slot_2))

module _ (m : Module) (al : Allocator m) (w : World) where
  pub call_alloc-ok :
      (len : ℕ)
      → 0 < len
      → Fits w.store
      → top w.store + 55 + len ≤ al.limit
      → (s : Store) × (call_alloc m len w ≡ ok (top w.store + 48) (record w { store = s }))
        × Placed len w.store s
  unfolding call_alloc host_invoke
  call_alloc-ok len some_bytes fits room =
      let (t, called, placed) = al.places len w.store some_bytes fits room in
      (t, rw (al.found, call_alloc) (rw (called, host_invoke) (rw placed.status)), placed)

-- The store after a block is taken and its record written: `t` holds the record at the old top.
pub record Built (s t : Store) (width mask : ℕ) (slots : List ℕ) : Type 0 where
  pub grown : Grown (8 * length slots + 55) s t
  pub room : top s + 48 + 8 * length slots ≤ top t
  pub made : IsRecord t.memory (top s) width mask slots

module _ (m : Module) (al : Allocator m) where
  Placed-Built :
      (s t : Store) (width mask : ℕ) (slots : List ℕ) (t' : Store)
      → Placed (8 * length slots) s t
      → Small (width ∷ mask ∷ slots)
      → t' ≡ record t { memory = put_words (top s + 24) (1 ∷ width ∷ mask ∷ slots) t.memory }
      → Built s t' width mask slots
  Placed-Built s t width mask slots t' placed small e =
      let a = top s in
      let b = put_words (a + 24) (1 ∷ width ∷ mask ∷ slots) t.memory in
      let below : Agree 0 (a + 24) t.memory b =
        λ q _ h. sym (put_words-below (a + 24) (1 ∷ width ∷ mask ∷ slots) t.memory q h) in
      rw e (record {
        grown = record {
          fits = record {
            pages = placed.grown.fits.pages;
            inside = placed.grown.fits.inside;
            none_free = placed.grown.fits.none_free;
          };
          grows = placed.grown.grows;
          bounded = placed.grown.bounded;
          keeps = λ q lo hi. placed.grown.keeps q lo hi ∙ below q lo (omega arith);
        };
        room = placed.room;
        made = record {
          magic =
              sym (word_at-Agree 0 (a + 24) a t.memory b below (omega arith) (omega arith))
              ∙ placed.magic;
          count =
              sym (word_at-Agree 0 (a + 24) (a + 8) t.memory b below (omega arith) (omega arith))
              ∙ placed.count;
          body = put_words-Holds (a + 24) (1 ∷ width ∷ mask ∷ slots) t.memory (omega arith, small);
        };
      })

  -- What a successful building of a record gives: its pointer, and a store in which it is built.
  abbrev pub Builds : ℕ → ℕ → List ℕ → World → Run World ℕ → Type 0
  Builds width mask slots w r =
      (s : Store) × (r ≡ ok (top w.store + 48) (record w { store = s }))
      × Built w.store s width mask slots

  pub alloc_cell-Builds :
      (value next : ℕ) (w : World)
      → Fits w.store
      → top w.store + 71 ≤ al.limit
      → value < 2 ^ 64
      → next < 2 ^ 64
      → Builds 2 2 (value ∷ next ∷ []) w (alloc_cell m value next w)
  unfolding alloc_cell
  alloc_cell-Builds value next w fits room v n =
      let (t, called, placed) = call_alloc-ok m al w 16 (omega arith) fits (omega arith) in
      let a = top w.store in
      let w1 : World = record w { store = t } in
      let inside : a + 64 ≤ memory_len w1 = omega (arith, placed.room, placed.grown.fits.inside) in
      let short : a + 64 < 2 ^ 64 = omega (arith, inside, placed.grown.fits.pages) in
      (
        (filled (a + 24) (1 ∷ 2 ∷ 2 ∷ value ∷ next ∷ []) w1).store,
        rw (called, alloc_cell) (fill_cell-ok a w1 value next inside short),
        Placed-Built w.store t 2 2 (value ∷ next ∷ []) _ placed
            (omega arith, (omega arith, (v, (n, tt)))) refl,
      )

  pub alloc_node-Builds :
      (left key right : ℕ) (w : World)
      → Fits w.store
      → top w.store + 79 ≤ al.limit
      → left < 2 ^ 64
      → key < 2 ^ 64
      → right < 2 ^ 64
      → Builds 3 5 (left ∷ key ∷ right ∷ []) w (alloc_node m left key right w)
  unfolding alloc_node
  alloc_node-Builds left key right w fits room l k r =
      let (t, called, placed) = call_alloc-ok m al w 24 (omega arith) fits (omega arith) in
      let a = top w.store in
      let w1 : World = record w { store = t } in
      let inside : a + 72 ≤ memory_len w1 = omega (arith, placed.room, placed.grown.fits.inside) in
      let short : a + 72 < 2 ^ 64 = omega (arith, inside, placed.grown.fits.pages) in
      (
        (filled (a + 24) (1 ∷ 3 ∷ 5 ∷ left ∷ key ∷ right ∷ []) w1).store,
        rw (called, alloc_node) (fill_node-ok a w1 left key right inside short),
        Placed-Built w.store t 3 5 (left ∷ key ∷ right ∷ []) _ placed
            (omega arith, (omega arith, (l, (k, (r, tt))))) refl,
      )
