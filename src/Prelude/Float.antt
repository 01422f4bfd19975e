-- ===== src/Prelude/Float.antt =====
-- Python's `float(s)` on decimal numbers with an optional fraction, without rounding. Exponents,
-- `inf` and `nan` are not read.
use Prim.Native.Nat.{ℕ, ◌*◌, ◌^◌}
use mathlib.Core.Bool.{Bool, true, false, ◌&&◌, ◌||◌, not}
use mathlib.Core.Option.{Option, none, some}
use mathlib.Core.List.{[], ◌∷◌, ◌++◌}
use slurm_gpu_tui.Prelude.Tests.{ltb, nat_beq, if◌then◌else◌}
use slurm_gpu_tui.Prelude.Equality.{Str, str_eq, ◌==◌}
use slurm_gpu_tui.Prelude.Lists.{length, all}
use slurm_gpu_tui.Prelude.Text.{strip, partition, number, is_digit}

-- The number `digits / 10 ^ scale`, or its negative.
pub record Decimal : Type 0 where
  pub negative : Bool
  pub digits : ℕ
  pub scale : ℕ

unsigned : Bool → Str → Option Decimal
unsigned negative s =
    let (whole, _, fraction) = partition b'.' s in
    if all is_digit (whole ++ fraction) && not ((whole ++ fraction) == [])
    then some (record {
      negative = negative;
      digits = number (whole ++ fraction);
      scale = length fraction;
    })
    else none

signed : Str → Option Decimal
unfolding unsigned
signed [] = none
signed (c ∷ s) =
    if nat_beq c b'-'
    then unsigned true s
    else if nat_beq c b'+'
    then unsigned false s
    else unsigned false (c ∷ s)

unfoldable pub float : Str → Option Decimal
unfolding signed
float s = signed (strip s)

-- `x > n`, `x >= 0` and `x <= n`
abbrev pub above : Decimal → ℕ → Bool
above x n = not x.negative && ltb (n * 10 ^ x.scale) x.digits

abbrev pub nonnegative : Decimal → Bool
nonnegative x = not x.negative || nat_beq x.digits 0

abbrev pub float_above : Str → ℕ → Bool
float_above s n = elim (float s) [ none ↦ false | some x ↦ above x n ]
