-- ===== src/Nodelist/Tokens.antt =====
-- The matches of `_NODE_TOKEN_RE`, `\[([^\]]*)\]|([^\[\]]+)`, that `finditer` gives.
use slurm_gpu_tui.Prelude.{ℕ, Str, Bool, List, [], ◌∷◌, ◌++◌, ◌||◌}
use slurm_gpu_tui.Prelude.{nat_beq, nat_eq, contains, if◌then◌else◌}

-- `skipped` stands for a character at which the expression does not match.
pub data Token : Type 0 where
  spec : Str → Token
  literal : Str → Token
  skipped : Token

-- Where the scan stands: between two matches, or inside one of the two kinds.
pub data Mode : Type 0 where
  outside : Mode
  in_literal : Str → Mode
  in_spec : Str → Mode

-- A character between two matches. An opening bracket that is never closed does not match.
unfoldable pub enter : ℕ → Bool → List Token × Mode
enter c closed =
    if nat_beq c b'['
    then (if closed then ([], in_spec []) else (skipped ∷ [], outside))
    else if nat_beq c b']'
    then (skipped ∷ [], outside)
    else ([], in_literal (c ∷ []))

unfoldable pub scan_char : ℕ → Bool → Mode → List Token × Mode
unfolding enter
scan_char c closed outside = enter c closed
scan_char c closed (in_literal cur) =
    if nat_beq c b'[' || nat_beq c b']'
    then (literal cur ∷ (enter c closed).0, (enter c closed).1)
    else ([], in_literal (cur ++ (c ∷ [])))
scan_char c closed (in_spec cur) =
    if nat_beq c b']' then (spec cur ∷ [], outside) else ([], in_spec (cur ++ (c ∷ [])))

unfoldable pub scan : Str → Mode → List Token
unfolding scan_char
scan [] outside = []
scan [] (in_literal cur) = literal cur ∷ []
scan [] (in_spec cur) = []
scan (c ∷ s) m = (scan_char c (contains s b']') m).0 ++ scan s (scan_char c (contains s b']') m).1

unfoldable pub tokens : Str → List Token
unfolding scan
tokens name = scan name outside
