-- ===== src/Prelude/Breaks.antt =====
-- Texts with no line break: what `splitlines` makes of them, and which texts have none.
use Prim.Native.Nat.{ℕ, zero, suc, ◌+◌, ◌-◌, ◌/◌, ◌%◌, ◌≤◌}
use mathlib.Core.Path.{◌≡◌, refl, sym, ap, ◌∙◌}
use mathlib.Core.Bool.{Bool, true, false, not, ◌&&◌}
use mathlib.Core.List.{List, [], ◌∷◌, ◌++◌, append_assoc, append-nil}
use native.Mathlib.Omega.{arith}
use slurm_gpu_tui.Prelude.Equality.{Str, str_eq}
use slurm_gpu_tui.Prelude.Lists.{length, all, All, take, replicate}
use slurm_gpu_tui.Prelude.Text.{
  is_space, is_break, join, lines_from, splitlines, show, zfill, digits_onto,
}
use slurm_gpu_tui.Prelude.Words.{words, squeezed, runs, nonempty_runs, grown}

abbrev pub breakless : Str → Bool
breakless = all (λ c. not (is_break c))

pub all-append : (p : ℕ → Bool) (s t : Str) → all p (s ++ t) ≡ (all p s && all p t)
all-append p [] t = refl
all-append p (c ∷ s) t = ground (arith, all-append p s t)

pub all-take : (p : ℕ → Bool) (n : ℕ) (s : Str) → all p s ≡ true → all p (take n s) ≡ true
all-take p zero s h = refl
all-take p (suc n) [] h = refl
all-take p (suc n) (c ∷ s) h = ground (arith, all-take p n s)

lines_from-append :
    (cur l rest : Str)
    → breakless l ≡ true
    → lines_from cur (l ++ rest) false ≡ lines_from (cur ++ l) rest false
unfolding lines_from
lines_from-append cur [] rest h = ap (λ x. lines_from x rest false) (sym (append-nil cur))
lines_from-append cur (c ∷ l) rest h =
    one_char c cur (l ++ rest) (ground arith)
    ∙ (lines_from-append (cur ++ (c ∷ [])) l rest (ground arith)
        ∙ ap (λ x. lines_from x rest false) (append_assoc cur (c ∷ []) l))
  where
    one_char :
        (c : ℕ) (cur s : Str)
        → is_break c ≡ false
        → lines_from cur (c ∷ s) false ≡ lines_from (cur ++ (c ∷ [])) s false
    one_char c cur s h = ground arith

-- The lines of a text: no line is empty or holds a break.
abbrev pub IsLine : Str → Type 0
IsLine l = (breakless l ≡ true) × (1 ≤ length l)

last_line : (l : Str) → IsLine l → lines_from [] l false ≡ l ∷ []
unfolding lines_from
last_line l h =
    ap (λ x. lines_from [] x false) (sym (append-nil l))
    ∙ (lines_from-append [] l [] h.0 ∙ ending l h.1)
  where
    ending : (l : Str) → 1 ≤ length l → lines_from l [] false ≡ l ∷ []
    ending [] h = absurd (omega arith)
    ending (c ∷ l) h = refl

-- `"\n".join(lines).splitlines()` gives the lines back.
pub splitlines-join : (ls : List Str) → All IsLine ls → splitlines (join (10 ∷ []) ls) ≡ ls
unfolding splitlines join lines_from
splitlines-join [] h = refl
splitlines-join (l ∷ []) (h, hs) = last_line l h
splitlines-join (l ∷ m ∷ ls) (h, hs) =
    lines_from-append [] l (10 ∷ join (10 ∷ []) (m ∷ ls)) h.0
    ∙ ap (λ x. l ∷ x) (splitlines-join (m ∷ ls) hs)

-- Runs of characters that are not separators.
abbrev spaceless : Str → Bool
spaceless = all (λ c. not (is_space c))

all-runs : (s : Str) → all spaceless (runs is_space s) ≡ true
unfolding runs
all-runs [] = refl
all-runs (c ∷ s) = grown_step (runs is_space s) (all-runs s)
  where
    grown_step :
        (ws : List Str) → all spaceless ws ≡ true → all spaceless (grown (is_space c) c ws) ≡ true
    grown_step [] h = ground arith
    grown_step (w ∷ ws) h = ground arith

all-nonempty_runs :
    (ws : List Str) → all spaceless ws ≡ true → all spaceless (nonempty_runs ws) ≡ true
unfolding nonempty_runs
all-nonempty_runs [] h = refl
all-nonempty_runs ([] ∷ ws) h = all-nonempty_runs ws h
all-nonempty_runs ((c ∷ w) ∷ ws) h = ground (arith, all-nonempty_runs ws)

breakless-spaceless : (s : Str) → spaceless s ≡ true → breakless s ≡ true
breakless-spaceless [] h = refl
breakless-spaceless (c ∷ s) h = ground (arith, breakless-spaceless s)

breakless-join : (ws : List Str) → all spaceless ws ≡ true → breakless (join (32 ∷ []) ws) ≡ true
unfolding join
breakless-join [] h = refl
breakless-join (w ∷ []) h = breakless-spaceless w (ground arith)
breakless-join (w ∷ v ∷ ws) h = ground (
  arith,
  breakless-join (v ∷ ws),
  breakless-spaceless w,
  all-append (λ c. not (is_break c)) w (32 ∷ join (32 ∷ []) (v ∷ ws)),
)

pub breakless-squeezed : (s : Str) → breakless (squeezed s) ≡ true
unfolding squeezed words
breakless-squeezed s = breakless-join (words s) (all-nonempty_runs (runs is_space s) (all-runs s))

breakless-digits_onto :
    (fuel n : ℕ) (s : Str) → breakless s ≡ true → breakless (digits_onto fuel n s) ≡ true
unfolding digits_onto
breakless-digits_onto zero n s h = h
breakless-digits_onto (suc fuel) n s h =
    ground (arith, breakless-digits_onto fuel (n / 10) ((b'0' + n % 10) ∷ s))

pub breakless-show : (n : ℕ) → breakless (show n) ≡ true
unfolding show
breakless-show n = breakless-digits_onto (n + 1) n [] refl

breakless-zeros : (n : ℕ) → breakless (replicate n b'0') ≡ true
breakless-zeros zero = refl
breakless-zeros (suc n) = breakless-zeros n

pub breakless-zfill : (n : ℕ) (s : Str) → breakless s ≡ true → breakless (zfill n s) ≡ true
unfolding zfill
breakless-zfill n s h = ground (
  arith,
  breakless-zeros (n - length s),
  all-append (λ c. not (is_break c)) (replicate (n - length s) b'0') s,
)
