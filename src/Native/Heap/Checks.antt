-- ===== src/Native/Heap/Checks.antt =====
-- The tests of a record's header pass on a record that the host built.
use Prim.Native.String.{String}
use leanexe.Base.{
  append_assoc, ℕ, ◌+◌, ◌*◌, ◌^◌, ◌≤◌, ◌<◌, ◌≡◌, refl, ap, List, ◌++◌, arith, length, Text, sub64,
  ltb, ==_iff, false,
}
use leanexe.Base.Run.{ok}
use leanexe.Native.Machine.{World}
use leanexe.Native.Memory.{memory_len, read_u64_at}
use leanexe.Native.Memory.Access.{word_at, read-ok}
use leanexe.Native.Show.{check_record, check_object, expect_word, object_magic}
use leanexe.Native.Heap.{IsRecord}

-- The world after a text is printed.
abbrev pub said : Text → World → World
said t w = record w { out = w.out ++ t }

pub said-said : (s t : Text) (w : World) → said t (said s w) ≡ said (s ++ t) w
said-said s t w = ap (λ o. record w { out = o }) (append_assoc w.out s t)

pub expect_word-ok :
    (p v : ℕ) (message : String) (w : World)
    → p + 8 ≤ memory_len w
    → word_at w.store.memory p ≡ v
    → expect_word p v message w ≡ ok tt w
unfolding expect_word
expect_word-ok p v message w h e = rw (read-ok p w h, (==_iff (word_at w.store.memory p) v).1 e)

module _ (a width mask : ℕ) (slots : List ℕ) (message : String) (w : World)
    (inside : a + 48 + 8 * length slots ≤ memory_len w) (short : memory_len w < 2 ^ 64)
    (r : IsRecord w.store.memory a width mask slots) where
  pub check_object-ok : check_object (a + 48) message w ≡ ok tt w
  unfolding check_object
  check_object-ok =
      let high : ltb (a + 48) 48 ≡ false = ground arith in
      let e48 : sub64 (a + 48) 48 ≡ a = omega arith in
      let e40 : sub64 (a + 48) 40 ≡ a + 8 = omega arith in
      let e24 : sub64 (a + 48) 24 ≡ a + 24 = omega arith in
      rw (
        high,
        e48,
        e40,
        e24,
        expect_word-ok a object_magic message w (omega arith) r.magic,
        expect_word-ok (a + 8) 1 message w (omega arith) r.count,
        expect_word-ok (a + 24) 1 message w (omega arith) r.body.0,
      )

  width_at : word_at w.store.memory (a + 32) ≡ width
  width_at = let e : a + 24 + 8 ≡ a + 32 = omega arith in rw e at (r.body.1.0)

  mask_at : word_at w.store.memory (a + 40) ≡ mask
  mask_at = let e : a + 24 + 8 + 8 ≡ a + 40 = omega arith in rw e at (r.body.1.1.0)

  pub read-width : read_u64_at (sub64 (a + 48) 16) w ≡ ok width w
  read-width =
      let e : sub64 (a + 48) 16 ≡ a + 32 = omega arith in
      rw (e, read-ok (a + 32) w (omega arith), width_at)

  pub read-mask : read_u64_at (sub64 (a + 48) 8) w ≡ ok mask w
  read-mask =
      let e : sub64 (a + 48) 8 ≡ a + 40 = omega arith in
      rw (e, read-ok (a + 40) w (omega arith), mask_at)

  pub check_record-ok : check_record (a + 48) width mask message w ≡ ok tt w
  unfolding check_record expect_word
  check_record-ok = rw (
    check_object-ok,
    read-width,
    (==_iff width width).1 refl,
    read-mask,
    (==_iff mask mask).1 refl,
  )
