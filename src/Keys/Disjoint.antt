-- ===== src/Keys/Disjoint.antt =====
-- Which texts the derived idempotency keys are (app/ledger.py, `system_key`).

use Prim.Native.String.{◌++◌}
use Prim.Native.Char.{code, nul, Char}
use text.Mathlib.TextLemmas.{cons-append, nil-append, head-eq_of_cons-eq, tail-eq_of_cons-eq}
use mathlib.Core.Bool.{false≢true}
use mathlib.Core.Path.{ap₂}
use forgeapi_homelab.Prelude.{
  String, ◌≡◌, refl, sym, ap, ◌∙◌, Bool, true, false, List, [], ◌∷◌, arith, ◌==◌, ◌||◌, All,
}
use forgeapi_homelab.Keys.{system_key}

-- Whether a text has the character `|`.
abbrev pub has_bar : String → Bool
has_bar String.[] = false
has_bar (String.◌∷◌ c s) = code c == b'|' || has_bar s

has_bar-append : (s t : String) → has_bar (s ++ t) ≡ (has_bar s || has_bar t)
has_bar-append String.[] t = rw nil-append
has_bar-append (String.◌∷◌ c s) t = rw cons-append (ground (arith, has_bar-append s t))

-- A derived key has a `|`, which the pattern of the `Idempotency-Key` header excludes.
pub system_key-bar : (p q : String) (ps : List String) → has_bar (system_key (p ∷ q ∷ ps)) ≡ true
unfolding system_key
system_key-bar p q ps =
    ground (
      arith,
      has_bar-append p ("|" ++ system_key (q ∷ ps)),
      has_bar-append "|" (system_key (q ∷ ps)),
    )

abbrev first_char : String → Char
first_char String.[] = nul
first_char (String.◌∷◌ c s) = c

bar_cons : (s : String) → "|" ++ s ≡ String.◌∷◌ (first_char "|") s
bar_cons s = cons-append (first_char "|") "" s ∙ ap (String.◌∷◌ (first_char "|")) (nil-append s)

bar_next :
    (d : Char) (b s t : String)
    → has_bar (String.◌∷◌ d b) ≡ false
    → "" ++ ("|" ++ s) ≡ String.◌∷◌ d b ++ t
    → ⊥
bar_next d b s t h e =
    let first =
      head-eq_of_cons-eq (sym (nil-append ("|" ++ s) ∙ bar_cons s) ∙ e ∙ cons-append d b t) in
    ground (arith, h, ap code first)

-- Two texts with no bar, each before a bar, are equal, and so are the rests.
split_bar :
    (a b s t : String)
    → has_bar a ≡ false
    → has_bar b ≡ false
    → a ++ ("|" ++ s) ≡ b ++ ("|" ++ t)
    → (a ≡ b) × (s ≡ t)
split_bar String.[] String.[] s t ha hb e = (
  refl,
  tail-eq_of_cons-eq
      (sym (nil-append ("|" ++ s) ∙ bar_cons s) ∙ e ∙ (nil-append ("|" ++ t) ∙ bar_cons t)),
)
split_bar String.[] (String.◌∷◌ d b) s t ha hb e = absurd (bar_next d b s ("|" ++ t) hb e)
split_bar (String.◌∷◌ c a) String.[] s t ha hb e = absurd (bar_next c a t ("|" ++ s) ha (sym e))
split_bar (String.◌∷◌ c a) (String.◌∷◌ d b) s t ha hb e =
    let e' : String.◌∷◌ c (a ++ ("|" ++ s)) ≡ String.◌∷◌ d (b ++ ("|" ++ t)) =
      sym (cons-append c a ("|" ++ s)) ∙ e ∙ cons-append d b ("|" ++ t) in
    let rest =
      split_bar a b s t (ground (arith, ha)) (ground (arith, hb)) (tail-eq_of_cons-eq e') in
    (ap₂ String.◌∷◌ (head-eq_of_cons-eq e') rest.0, rest.1)

abbrev IsBarFree : String → Type 0
IsBarFree p = has_bar p ≡ false

-- Derived keys of parts that hold no `|` are equal only if their parts are.
pub system_key-injective :
    (p q : String) (ps qs : List String)
    → All IsBarFree (p ∷ ps)
    → All IsBarFree (q ∷ qs)
    → system_key (p ∷ ps) ≡ system_key (q ∷ qs)
    → p ∷ ps ≡ q ∷ qs
unfolding system_key
system_key-injective p q [] [] hp hq e = ap (λ (x : String). x ∷ []) e
system_key-injective p q [] (y ∷ qs) hp hq e =
    absurd (false≢true (sym hp.0 ∙ ap has_bar e ∙ system_key-bar q y qs))
system_key-injective p q (x ∷ ps) [] hp hq e =
    absurd (false≢true (sym hq.0 ∙ ap has_bar (sym e) ∙ system_key-bar p x ps))
system_key-injective p q (x ∷ ps) (y ∷ qs) hp hq e =
    let (head, rest) = split_bar p q (system_key (x ∷ ps)) (system_key (y ∷ qs)) hp.0 hq.0 e in
    ap₂ ◌∷◌ head (system_key-injective x y ps qs hp.1 hq.1 rest)
