-- ===== src/Domain/Paths/Colons.antt =====
-- Texts that are joined by colons, and when their parts are determined.
use Prim.Native.Char.{Char, code}
use Prim.Native.String.{String, [], ◌∷◌, ◌++◌}
use mathlib.Core.Path.{◌≡◌, refl, sym, ap, ap₂, ◌∙◌}
use mathlib.Core.Bool.{Bool, true, false, not, ◌&&◌}
use native.Mathlib.Omega.{arith}
use text.Mathlib.TextLemmas.{nil-append, cons-append}
use indy_node.Base.{ℕ, suc, num_eq, if◌then◌else◌}

abbrev pub is_colon : Char → Bool
is_colon c = num_eq (code c) b':'

-- No colon inside.
unfoldable pub plain : String → Bool
plain [] = true
plain (c ∷ s) = not (is_colon c) && plain s

abbrev colon : Char
colon = ":"

colon-append : (s : String) → ":" ++ s ≡ colon ∷ s
colon-append s = cons-append colon [] s ∙ ap (λ t. colon ∷ t) (nil-append s)

at_colon : (s : String) → "" ++ (":" ++ s) ≡ colon ∷ s
at_colon s = nil-append (":" ++ s) ∙ colon-append s

cons_lem : (c d : Char) (s t : String) → c ∷ s ≡ d ∷ t → (c ≡ d) × (s ≡ t)
cons_lem c d s t e = (ground (arith, e), ground (arith, e))

plain-cons :
    (c : Char) (s : String) → plain (c ∷ s) ≡ true → (is_colon c ≡ false) × (plain s ≡ true)
unfolding plain
plain-cons c s p = ground (arith, p)

-- The part before the first colon, and the rest.
pub first_part :
    (a b s t : String)
    → plain a ≡ true
    → plain b ≡ true
    → a ++ (":" ++ s) ≡ b ++ (":" ++ t)
    → (a ≡ b) × (s ≡ t)
first_part [] [] s t p q e =
    (refl, (cons_lem colon colon s t (sym (at_colon s) ∙ e ∙ at_colon t)).1)
first_part [] (d ∷ b) s t p q e =
    let heads = cons_lem colon d s _ (sym (at_colon s) ∙ e ∙ cons-append d b (":" ++ t)) in
    absurd (ground (arith, ap is_colon heads.0, (plain-cons d b q).0))
first_part (c ∷ a) [] s t p q e =
    let heads = cons_lem c colon _ t (sym (cons-append c a (":" ++ s)) ∙ e ∙ at_colon t) in
    absurd (ground (arith, ap is_colon heads.0, (plain-cons c a p).0))
first_part (c ∷ a) (d ∷ b) s t p q e =
    let heads =
      cons_lem c d _ _ (sym (cons-append c a (":" ++ s)) ∙ e ∙ cons-append d b (":" ++ t)) in
    let (same, rest) = first_part a b s t (plain-cons c a p).1 (plain-cons d b q).1 heads.1 in
    (ap₂ (λ x y. x ∷ y) heads.0 same, rest)

plain-append_colon : (a s : String) → plain (a ++ (":" ++ s)) ≡ false
unfolding plain
plain-append_colon [] s = ap plain (at_colon s)
plain-append_colon (c ∷ a) s =
    ap plain (cons-append c a (":" ++ s)) ∙ ground (arith, plain-append_colon a s)

-- The part behind the last colon, and what stands before it.
pub last_part :
    (a b s t : String)
    → plain s ≡ true
    → plain t ≡ true
    → a ++ (":" ++ s) ≡ b ++ (":" ++ t)
    → (a ≡ b) × (s ≡ t)
last_part [] [] s t p q e = (refl, (cons_lem colon colon s t (sym (at_colon s) ∙ e ∙ at_colon t)).1)
last_part [] (d ∷ b) s t p q e =
    let heads = cons_lem colon d s _ (sym (at_colon s) ∙ e ∙ cons-append d b (":" ++ t)) in
    absurd (ground (arith, p, ap plain heads.1, plain-append_colon b t))
last_part (c ∷ a) [] s t p q e =
    let heads = cons_lem c colon _ t (sym (cons-append c a (":" ++ s)) ∙ e ∙ at_colon t) in
    absurd (ground (arith, q, ap plain heads.1, plain-append_colon a s))
last_part (c ∷ a) (d ∷ b) s t p q e =
    let heads =
      cons_lem c d _ _ (sym (cons-append c a (":" ++ s)) ∙ e ∙ cons-append d b (":" ++ t)) in
    let (same, rest) = last_part a b s t p q heads.1 in (ap₂ (λ x y. x ∷ y) heads.0 same, rest)

-- How many colons are inside.
unfoldable pub colons : String → ℕ
colons [] = 0
colons (c ∷ s) = let rest = colons s in if is_colon c then suc rest else rest

-- Two beginnings with as many colons.
pub same_parts :
    (a b s t : String) → colons a ≡ colons b → a ++ (":" ++ s) ≡ b ++ (":" ++ t) → (a ≡ b) × (s ≡ t)
unfolding colons
same_parts [] [] s t n e = (refl, (cons_lem colon colon s t (sym (at_colon s) ∙ e ∙ at_colon t)).1)
same_parts [] (d ∷ b) s t n e =
    let heads = cons_lem colon d s _ (sym (at_colon s) ∙ e ∙ cons-append d b (":" ++ t)) in
    absurd (ground (arith, ap is_colon heads.0, n))
same_parts (c ∷ a) [] s t n e =
    let heads = cons_lem c colon _ t (sym (cons-append c a (":" ++ s)) ∙ e ∙ at_colon t) in
    absurd (ground (arith, ap is_colon heads.0, n))
same_parts (c ∷ a) (d ∷ b) s t n e =
    let heads =
      cons_lem c d _ _ (sym (cons-append c a (":" ++ s)) ∙ e ∙ cons-append d b (":" ++ t)) in
    let fewer : colons a ≡ colons b = ground (arith, n, ap is_colon heads.0) in
    let (same, rest) = same_parts a b s t fewer heads.1 in (ap₂ (λ x y. x ∷ y) heads.0 same, rest)
