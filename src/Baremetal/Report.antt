-- ===== src/Baremetal/Report.antt =====
-- The reports of the startup code: tools/baremetal/report.c, and tools/baremetal/armv7m/report.c,
-- whose prints are of 32-bit words. A report is the text that it writes to the UART.
use leanexe.Base.{
  ℕ, zero, suc, ◌*◌, ◌/◌, ◌%◌, ◌^◌, List, [], ◌∷◌, ◌++◌, ◌==◌, if◌then◌else◌, Text, codes,
}
use leanexe.Base.Decimal.{decimal, hex_digit}

abbrev pub outdec : ℕ → Text
outdec v = decimal v

-- `for (i = 4 * (n - 1); i >= 0; i -= 4) out("0123456789abcdef"[(v >> i) & 15])`.
unfoldable pub hex_digits : ℕ → ℕ → Text
hex_digits zero v = []
hex_digits (suc n) v = hex_digit (v / 16 ^ n % 16) ∷ hex_digits n v

unfoldable pub outhex : ℕ → Text
outhex v = codes "0x" ++ hex_digits 16 v

unfoldable pub outhex32 : ℕ → Text
outhex32 v = codes "0x" ++ hex_digits 8 v

-- The words of the stack above the fill pattern, from the bottom on: the loop that moves `p`.
unfoldable pub skip_pattern : ℕ → List ℕ → List ℕ
skip_pattern pattern_word [] = []
skip_pattern pattern_word (x ∷ xs) =
    if x == pattern_word then skip_pattern pattern_word xs else x ∷ xs

unfoldable pub words_left : List ℕ → ℕ
words_left [] = 0
words_left (x ∷ xs) = suc (words_left xs)

-- The text of the report, and the result.
unfoldable pub lx_report_exit : List ℕ → ℕ → ℕ → Text × ℕ
lx_report_exit stack r el =
    let used = words_left (skip_pattern 0x5354414b5354414b stack) * 8 in
    (
      codes "R:exit "
          ++ (outdec r
              ++ (codes " el " ++ (outdec el ++ (codes " stack " ++ (outdec used ++ codes "\n"))))),
      r,
    )

unfoldable pub lx_report_exception : ℕ → ℕ → ℕ → ℕ → Text × ℕ
lx_report_exception n esr elr far = (
  codes "R:exception "
      ++ (outdec n
          ++ (codes " esr "
              ++ (outhex esr
                  ++ (codes " elr "
                      ++ (outhex elr ++ (codes " far " ++ (outhex far ++ codes "\n"))))))),
  255,
)

unfoldable pub lx_report_level : ℕ → Text × ℕ
lx_report_level el = (codes "R:level " ++ (outdec el ++ codes "\n"), 254)

unfoldable pub lx_stack_report : Text → ℕ → Text
lx_stack_report name used =
    codes "R:call " ++ (name ++ (codes " stack " ++ (outdec used ++ codes "\n")))

-- The reports of the Cortex-M7.
unfoldable pub lx_report_exit_armv7m : List ℕ → ℕ → Text × ℕ
lx_report_exit_armv7m stack r =
    let used = words_left (skip_pattern 0x5354414b stack) * 4 in
    (codes "R:exit " ++ (outdec r ++ (codes " stack " ++ (outdec used ++ codes "\n"))), r)

unfoldable pub lx_report_fault : ℕ → ℕ → ℕ → ℕ → ℕ → ℕ → Text × ℕ
lx_report_fault n cfsr hfsr mmfar bfar pc = (
  codes "R:fault "
      ++ (outdec n
          ++ (codes " cfsr "
              ++ (outhex32 cfsr
                  ++ (codes " hfsr "
                      ++ (outhex32 hfsr
                          ++ (codes " mmfar "
                              ++ (outhex32 mmfar
                                  ++ (codes " bfar "
                                      ++ (outhex32 bfar
                                          ++ (codes " pc " ++ (outhex32 pc ++ codes "\n"))))))))))),
  255,
)
