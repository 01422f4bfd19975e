-- ===== src/Nodelist/Literal.antt =====
-- Plain host names: a comma-joined list of them expands to itself.
use slurm_gpu_tui.Prelude.{ℕ, ◌≡◌, ◌≢◌, refl, ◌∙◌, arith, ap, Str, Bool, true}
use slurm_gpu_tui.Prelude.{List, [], ◌∷◌, ◌++◌, not, ◌&&◌, ◌||◌, map, ==_iff, str_eq, All}
use slurm_gpu_tui.Prelude.{nat_beq, all, keep}
use slurm_gpu_tui.Prelude.Text.{strip, is_space, join}
use slurm_gpu_tui.Nodelist.{
  split_loop, split_top_level, products, nonempty, token_groups, group_total,
}
use slurm_gpu_tui.Nodelist.{expand_name, expand_names, expand_nodelist}
use slurm_gpu_tui.Nodelist.Tokens.{tokens, scan, in_literal, literal}
use slurm_gpu_tui.Nodelist.Spaces.{strip-no_spaces, no_spaces}
use mathlib.Core.List.{append-nil, append_assoc}

-- No bracket, comma or space.
abbrev pub is_plain_char : ℕ → Bool
is_plain_char c = not (nat_beq c b'[' || nat_beq c b']' || nat_beq c b',') && not (is_space c)

abbrev pub IsPlain : Str → Type 0
IsPlain h = (h ≢ []) × (all is_plain_char h ≡ true)

plain-no_spaces : (h : Str) → all is_plain_char h ≡ true → no_spaces h ≡ true
plain-no_spaces [] p = refl
plain-no_spaces (c ∷ h) p = ground (arith, plain-no_spaces h)

split_loop-last : (h cur : Str) → all is_plain_char h ≡ true → split_loop h 0 cur ≡ (cur ++ h) ∷ []
unfolding split_loop
split_loop-last [] cur p = rw append-nil
split_loop-last (c ∷ h) cur p =
    ground (arith, split_loop-last h (cur ++ (c ∷ [])), append_assoc cur (c ∷ []) h)

split_loop-comma :
    (h cur s : Str)
    → all is_plain_char h ≡ true
    → split_loop (h ++ (b',' ∷ s)) 0 cur ≡ (cur ++ h) ∷ split_loop s 0 []
unfolding split_loop
split_loop-comma [] cur s p = rw append-nil
split_loop-comma (c ∷ h) cur s p =
    ground (arith, split_loop-comma h (cur ++ (c ∷ [])) s, append_assoc cur (c ∷ []) h)

split_loop-join :
    (h : Str) (hosts : List Str)
    → All IsPlain (h ∷ hosts)
    → split_loop (join (b',' ∷ []) (h ∷ hosts)) 0 [] ≡ h ∷ hosts
unfolding join
split_loop-join h [] (p, _) = split_loop-last h [] p.1
split_loop-join h (k ∷ hosts) (p, ps) =
    split_loop-comma h [] (join (b',' ∷ []) (k ∷ hosts)) p.1
    ∙ ap (λ r. h ∷ r) (split_loop-join k hosts ps)

keep-plain : (hosts : List Str) → All IsPlain hosts → keep nonempty (map strip hosts) ≡ hosts
keep-plain [] ps = refl
keep-plain (h ∷ hosts) (p, ps) =
    ground (arith, strip-no_spaces h (plain-no_spaces h p.1), keep-plain hosts ps, ==_iff h [])

scan-plain :
    (h cur : Str) → all is_plain_char h ≡ true → scan h (in_literal cur) ≡ literal (cur ++ h) ∷ []
unfolding scan
scan-plain [] cur p = rw append-nil
scan-plain (c ∷ h) cur p =
    ground (arith, scan-plain h (cur ++ (c ∷ [])), append_assoc cur (c ∷ []) h)

tokens-plain : (h : Str) → IsPlain h → tokens h ≡ literal h ∷ []
unfolding tokens
tokens-plain [] p = absurd (p.0 refl)
tokens-plain (c ∷ h) p = ground (arith, scan-plain h (c ∷ []))

expand_name-plain : (h : Str) → IsPlain h → expand_name h ≡ h ∷ []
unfolding expand_name
expand_name-plain h p =
    rw (tokens-plain h p) (unfold token_groups group_total products in simp append-nil)

expand_names-plain : (hosts : List Str) → All IsPlain hosts → expand_names hosts ≡ hosts
unfolding expand_names
expand_names-plain [] ps = refl
expand_names-plain (h ∷ hosts) (p, ps) = rw (expand_name-plain h p, expand_names-plain hosts ps)

-- Plain host names, joined by commas, expand to themselves, in order.
pub expand_nodelist-join :
    (h : Str) (hosts : List Str)
    → All IsPlain (h ∷ hosts)
    → expand_nodelist (join (b',' ∷ []) (h ∷ hosts)) ≡ h ∷ hosts
unfolding expand_nodelist split_top_level
expand_nodelist-join h hosts ps =
    rw (split_loop-join h hosts ps, keep-plain (h ∷ hosts) ps) (expand_names-plain (h ∷ hosts) ps)
