-- ===== src/Base/Split.antt =====
-- `str.join` and `str.split` for the delimiter "--", and when the one undoes the other.
use Prim.Native.Char.{Char, code}
use Prim.Native.String.{String, [], ◌∷◌, ◌++◌}
use mathlib.Core.List.{List}
use mathlib.Core.Path.{◌≡◌, refl}
use mathlib.Core.Bool.{Bool, true, false, not, ◌&&◌}
use native.Mathlib.Omega.{arith}
use text.Mathlib.TextLemmas.{nil-append, cons-append}
use indy_node.Base.Tests.{if◌then◌else◌, num_eq}

abbrev pub is_dash : Char → Bool
is_dash c = num_eq (code c) b'-'

abbrev prepend : Char → List String → List String
prepend c List.[] = List.◌∷◌ (c ∷ []) List.[]
prepend c (List.◌∷◌ s r) = List.◌∷◌ (c ∷ s) r

unfoldable pub join : List String → String
join List.[] = []
join (List.◌∷◌ s List.[]) = s
join (List.◌∷◌ s (List.◌∷◌ t r)) = s ++ ("--" ++ join (List.◌∷◌ t r))

-- The scan goes from left to right, and a delimiter that is found is consumed.
unfoldable pub split : String → List String
split [] = List.◌∷◌ "" List.[]
split (c ∷ []) = List.◌∷◌ (c ∷ []) List.[]
split (c ∷ (d ∷ s)) =
    let after = split s in
    let next = split (d ∷ s) in if is_dash c && is_dash d then List.◌∷◌ "" after else prepend c next

-- No delimiter inside, and no dash at the end that could begin one.
unfoldable pub clean : String → Bool
clean [] = true
clean (c ∷ []) = not (is_dash c)
clean (c ∷ (d ∷ s)) = not (is_dash c && is_dash d) && clean (d ∷ s)

abbrev pub AllClean : List String → Type 0
AllClean List.[] = Unit
AllClean (List.◌∷◌ s r) = (clean s ≡ true) × AllClean r

split-delimiter : (t : String) → split ("--" ++ t) ≡ List.◌∷◌ "" (split t)
unfolding split
split-delimiter t = rw (cons-append, cons-append, nil-append)

split-cons :
    (c d : Char) (s : String)
    → (is_dash c && is_dash d) ≡ false
    → split (c ∷ (d ∷ s)) ≡ prepend c (split (d ∷ s))
unfolding split
split-cons c d s h = rw h

clean-cons :
    (c d : Char) (s : String)
    → clean (c ∷ (d ∷ s)) ≡ true
    → ((is_dash c && is_dash d) ≡ false) × (clean (d ∷ s) ≡ true)
unfolding clean
clean-cons c d s h = ground (arith, h)

last_dash : (c : Char) (b : Bool) → not (is_dash c) ≡ true → (is_dash c && b) ≡ false
last_dash c b h = ground arith

split-before :
    (c : Char) (t : String)
    → clean (c ∷ []) ≡ true
    → split (c ∷ ("--" ++ t)) ≡ prepend c (split ("--" ++ t))
unfolding clean
split-before c t h = rw cons-append (split-cons c _ _ (last_dash c _ h))

pub split-append : (s t : String) → clean s ≡ true → split (s ++ ("--" ++ t)) ≡ List.◌∷◌ s (split t)
split-append [] t h = rw nil-append (split-delimiter t)
split-append (c ∷ []) t h =
    rw (cons-append, nil-append) (rw (split-before c t h) (rw (split-delimiter t)))
split-append (c ∷ (d ∷ s)) t h =
    let (here, rest) = clean-cons c d s h in
    rw (cons-append, cons-append)
      (rw (split-cons c d _ here) (rw (← cons-append) (rw (split-append (d ∷ s) t rest))))

pub split-clean : (s : String) → clean s ≡ true → split s ≡ List.◌∷◌ s List.[]
unfolding split
split-clean [] h = refl
split-clean (c ∷ []) h = refl
split-clean (c ∷ (d ∷ s)) h =
    let (here, rest) = clean-cons c d s h in rw here (rw (split-clean (d ∷ s) rest))

-- Parts that hold no delimiter are what `split` gives back.
pub split-join :
    (s : String) (r : List String)
    → AllClean (List.◌∷◌ s r)
    → split (join (List.◌∷◌ s r)) ≡ List.◌∷◌ s r
unfolding join
split-join s List.[] h = split-clean s h.0
split-join s (List.◌∷◌ t r) h = rw (split-append s _ h.0) (rw (split-join t r h.1))
