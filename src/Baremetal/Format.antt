-- ===== src/Baremetal/Format.antt =====
-- `vformat` of tools/baremetal/libc/libc.c, and the functions of the C library over it.
use leanexe.Base.{
  ℕ, zero, suc, ◌-◌, ◌/◌, ◌%◌, Bool, true, false, List, [], ◌∷◌, ltb, ◌==◌, if◌then◌else◌, Text,
  codes, starts_with,
}
use leanexe.Base.Decimal.{hex_digit}
use leanexe.Baremetal.Uart.{Stream, World, put, put_str, put_dec}

-- A variable argument: a string, an `unsigned long long`, or the 32 bits of an `int`.
pub data Arg : Type 0 where
  text : Text → Arg
  word : ℕ → Arg
  int : ℕ → Arg

-- What `va_arg` finds is of the type that the format asks for.
unfoldable pub arg_text : Arg → Text
arg_text (Arg.text s) = s
arg_text (Arg.word n) = []
arg_text (Arg.int n) = []

unfoldable pub arg_number : Arg → ℕ
arg_number (Arg.text s) = 0
arg_number (Arg.word n) = n
arg_number (Arg.int n) = n

abbrev pub next : List Arg → Arg
next [] = Arg.word 0
next (a ∷ args) = a

abbrev pub later : List Arg → List Arg
later [] = []
later (a ∷ args) = args

unfoldable pub put_hex_byte : Stream → ℕ → World → World
put_hex_byte f v w = put f (hex_digit (v % 16)) (put f (hex_digit (v / 16 % 16)) w)

unfoldable pub put_int : Stream → ℕ → World → World
put_int f v w =
    if ltb v 0x80000000 then put_dec f v w else put_dec f (0x100000000 - v) (put f b'-' w)

-- The formats that the host uses, split into their parts.
pub data Part : Type 0 where
  literal : ℕ → Part
  string unsigned hex signed bad : Part

-- One byte, or one conversion, and the number of bytes after its first that it takes.
unfoldable pub part_of : Text → Part × ℕ
part_of [] = (Part.bad, 0)
part_of (d ∷ s) =
    if d == b's'
    then (Part.string, 1)
    else if starts_with (d ∷ s) (codes "llu")
    then (Part.unsigned, 3)
    else if starts_with (d ∷ s) (codes "02x")
    then (Part.hex, 3)
    else if d == b'd'
    then (Part.signed, 1)
    else (Part.bad, 1)

unfoldable pub put_part : Stream → Part → Arg → World → World
put_part f (Part.literal c) a w = put f c w
put_part f Part.string a w = put_str f (arg_text a) w
put_part f Part.unsigned a w = put_dec f (arg_number a) w
put_part f Part.hex a w = put_hex_byte f (arg_number a) w
put_part f Part.signed a w = put_int f (arg_number a) w
put_part f Part.bad a w = put_str f (codes "<bad format>") w

unfoldable pub takes_arg : Part → Bool
takes_arg (Part.literal c) = false
takes_arg Part.string = true
takes_arg Part.unsigned = true
takes_arg Part.hex = true
takes_arg Part.signed = true
takes_arg Part.bad = false

-- The loop over the format; `skip` counts the bytes that a conversion has taken already. On a format
-- that ends with `%`, the source's loop goes on behind the format's end; here it stops there.
unfoldable pub vformat : Stream → ℕ → Text → List Arg → World → World
vformat f skip [] args w = w
vformat f (suc skip) (c ∷ s) args w = vformat f skip s args w
vformat f zero (c ∷ s) args w =
    let (part, taken) = if c == b'%' then part_of s else (Part.literal c, 0) in
    vformat f taken s (if takes_arg part then later args else args) (put_part f part (next args) w)

unfoldable pub fprintf : Stream → Text → List Arg → World → World
fprintf f fmt args w = vformat f 0 fmt args w

unfoldable pub printf : Text → List Arg → World → World
printf fmt args w = fprintf Stream.stdout fmt args w

unfoldable pub perror : Text → World → World
perror s w = put_str Stream.stderr (codes ": error\n") (put_str Stream.stderr s w)
