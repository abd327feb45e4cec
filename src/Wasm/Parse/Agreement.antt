-- ===== src/Wasm/Parse/Agreement.antt =====
-- The two hosts' readers of numbers: parse_u64 of tools/wasmtime-host.c and host_parse_u64 of
-- tools/native-host.c.
use leanexe.Base.{ℕ, ◌≡◌, refl, ◌||◌, not, Bool-cases, inl, inr, Text, length, ◌==◌, if◌then◌else◌}
use leanexe.Base.Decimal.{strtoull}
use leanexe.Base.Run.{ok, pure}
use leanexe.Base.Run.Results.{Gives, Gives-pure, Gives-ok}
use leanexe.Native.Machine.{die}
use leanexe.Native.Parse.{is_empty, host_parse_u64}
use leanexe.Native.Call.Bounds.{Gives-die}
use leanexe.Native.Machine as Native
use leanexe.Wasm.Machine.{World}
use leanexe.Wasm.Parse.{parse_u64}

-- The two tests on the value and the end that `strtoull` gives.
tests_agree :
    (text end : Text) (value : ℕ) (w : World)
    → parse_u64 text w
      ≡ (if not (is_empty end) then leanexe.Wasm.Outcome.die "invalid i64 argument" else pure value)
          w
    → Gives {S = Native.World}
        (λ v. parse_u64 text w ≡ ok v w)
        (if length end == length text || not (is_empty end)
          then die "invalid i64 argument"
          else pure value)
tests_agree text end value w e = elim (Bool-cases (length end == length text)) [
  | inl nothing_read ↦ rw nothing_read (Gives-die _ "invalid i64 argument")
  | inr read ↦ elim (Bool-cases (not (is_empty end))) [
    | inl more ↦ rw (read, more) (Gives-die _ "invalid i64 argument")
    | inr whole ↦ rw (read, whole) (Gives-pure _ value (rw whole at e))
  ]
]

-- What the native host reads as a number, the Wasmtime host reads as the same number, whatever the
-- states of the two.
pub parse_u64-host_parse_u64 :
    (text : Text) (value : ℕ) (n n' : Native.World) (w : World)
    → host_parse_u64 text n ≡ ok value n'
    → parse_u64 text w ≡ ok value w
unfolding parse_u64 host_parse_u64
parse_u64-host_parse_u64 text value n n' w e =
    let (read, end) = strtoull text in
    Gives-ok (λ v. parse_u64 text w ≡ ok v w) (host_parse_u64 text) value n n'
      (tests_agree text end read w refl) e
