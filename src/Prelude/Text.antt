-- ===== src/Prelude/Text.antt =====
-- Python's string methods, over the list of a string's code points. The character classes are
-- those of ASCII.
use Prim.Native.Char.{code}
use Prim.Native.String.{String}
use Prim.Native.Nat.{ℕ, zero, suc, ◌+◌, ◌-◌, ◌*◌, ◌/◌, ◌%◌}
use mathlib.Core.Bool.{Bool, true, false, not, ◌&&◌, ◌||◌}
use mathlib.Core.Option.{Option, none, some}
use slurm_gpu_tui.Prelude.Int.{ℤ, pos, negsuc}
use mathlib.Core.List.{List, [], ◌∷◌, ◌++◌, map, reverse}
use slurm_gpu_tui.Prelude.Tests.{ltb, leb, nat_beq, if◌then◌else◌}
use slurm_gpu_tui.Prelude.Equality.{Str, str_eq, nat_eq}
use slurm_gpu_tui.Prelude.Lists.{length, all, replicate}

-- A literal's code points.
abbrev pub codes : String → Str
codes String.[] = []
codes (String.◌∷◌ c s) = code c ∷ codes s

abbrev pub is_digit : ℕ → Bool
is_digit c = leb b'0' c && leb c b'9'

abbrev pub is_space : ℕ → Bool
is_space c = nat_beq c 32 || (leb 9 c && leb c 13) || (leb 28 c && leb c 31)

abbrev pub upper_char : ℕ → ℕ
upper_char c = if leb b'a' c && leb c b'z' then c - 32 else c

abbrev pub lower_char : ℕ → ℕ
lower_char c = if leb b'A' c && leb c b'Z' then c + 32 else c

abbrev pub is_alnum : ℕ → Bool
is_alnum c = is_digit c || (leb b'a' c && leb c b'z') || (leb b'A' c && leb c b'Z')

-- `s.isdigit()` is false on the empty string.
unfoldable pub isdigit : Str → Bool
isdigit [] = false
isdigit (c ∷ s) = all is_digit (c ∷ s)

unfoldable pub upper : Str → Str
upper = map upper_char

unfoldable pub lower : Str → Str
lower = map lower_char

unfoldable pub lstrip : Str → Str
lstrip [] = []
lstrip (c ∷ s) = let rest = lstrip s in if is_space c then rest else c ∷ s

unfoldable pub strip : Str → Str
unfolding lstrip
strip s = reverse (lstrip (reverse (lstrip s)))

-- `s.split(sep)` for a separator of one character: never empty.
abbrev pub cons_first : ℕ → List Str → List Str
cons_first c [] = (c ∷ []) ∷ []
cons_first c (w ∷ ws) = (c ∷ w) ∷ ws

unfoldable pub split : ℕ → Str → List Str
split sep [] = [] ∷ []
split sep (c ∷ s) = let rest = split sep s in if nat_beq c sep then [] ∷ rest else cons_first c rest

-- `s.partition(sep)`: the part before, whether the separator was found, and the part after.
abbrev pub Parts : Type 0
Parts = Str × Bool × Str

unfoldable pub partition : ℕ → Str → Parts
partition sep [] = ([], false, [])
partition sep (c ∷ s) =
    let rest = partition sep s in
    if nat_beq c sep then ([], true, s) else (c ∷ rest.0, rest.1, rest.2)

unfoldable pub starts_with : Str → Str → Bool
starts_with s [] = true
starts_with [] (c ∷ p) = false
starts_with (d ∷ s) (c ∷ p) = nat_beq d c && starts_with s p

-- `p in s`
unfoldable pub has_substring : Str → Str → Bool
unfolding starts_with
has_substring p [] = starts_with [] p
has_substring p (c ∷ s) = starts_with (c ∷ s) p || has_substring p s

-- `sep.join(words)`
unfoldable pub join : Str → List Str → Str
join sep [] = []
join sep (w ∷ []) = w
join sep (w ∷ v ∷ ws) = w ++ (sep ++ join sep (v ∷ ws))

-- The value of a string of decimal digits.
unfoldable pub number_from : ℕ → Str → ℕ
number_from n [] = n
number_from n (c ∷ s) = number_from (n * 10 + (c - b'0')) s

unfoldable pub number : Str → ℕ
unfolding number_from
number = number_from 0

-- `str(n)`: `n + 1` digits are enough for `n`.
unfoldable pub digits_onto : ℕ → ℕ → Str → Str
digits_onto zero n out = out
digits_onto (suc fuel) n out =
    let rest = digits_onto fuel (n / 10) ((b'0' + n % 10) ∷ out) in
    if ltb n 10 then (b'0' + n) ∷ out else rest

unfoldable pub show : ℕ → Str
unfolding digits_onto
show n = digits_onto (n + 1) n []

-- `s.zfill(width)` of a string with no sign
unfoldable pub zfill : ℕ → Str → Str
zfill width s = replicate (width - length s) b'0' ++ s

-- `s.splitlines()`: a line ends at a line break, or where the text ends after at least one
-- character of the line. `cr` says that a carriage return stands before, which joins a line feed.
abbrev pub is_break : ℕ → Bool
is_break c = (leb 10 c && leb c 13) || (leb 28 c && leb c 30)

unfoldable pub lines_from : Str → Str → Bool → List Str
lines_from [] [] cr = []
lines_from (c ∷ cur) [] cr = (c ∷ cur) ∷ []
lines_from cur (c ∷ s) cr =
    let joined = cr && nat_beq c 10 in
    let flush = is_break c && not joined in
    let rest = lines_from (if flush || joined then [] else cur ++ (c ∷ [])) s (nat_beq c 13) in
    if flush then cur ∷ rest else rest

unfoldable pub splitlines : Str → List Str
unfolding lines_from
splitlines s = lines_from [] s false

-- `int(s)`: white space around, a sign, and digits with single underscores between them. `none`
-- is a ValueError.
unfoldable pub digits_value : ℕ → Bool → Str → Option ℕ
digits_value n after_digit [] = if after_digit then some n else none
digits_value n after_digit (c ∷ s) =
    if is_digit c
    then digits_value (n * 10 + (c - b'0')) true s
    else elim (nat_beq c b'_' && after_digit) [ true ↦ digits_value n false s | false ↦ none ]

abbrev negated : Option ℕ → Option ℤ
negated none = none
negated (some zero) = some (pos 0)
negated (some (suc n)) = some (negsuc n)

abbrev plain : Option ℕ → Option ℤ
plain none = none
plain (some n) = some (pos n)

signed_value : Str → Option ℤ
unfolding digits_value
signed_value [] = none
signed_value (c ∷ s) =
    if nat_beq c b'-'
    then negated (digits_value 0 false s)
    else if nat_beq c b'+'
    then plain (digits_value 0 false s)
    else plain (digits_value 0 false (c ∷ s))

unfoldable pub int : Str → Option ℤ
unfolding signed_value strip
int s = signed_value (strip s)
