-- ===== src/Base/Decimal.antt =====
-- `str` of a number and `int` of what it writes.
use Prim.Native.Nat.{ℕ, zero, suc, ◌+◌, ◌-◌, ◌*◌, ◌/◌, ◌%◌, ◌≤◌, ◌<◌}
use Prim.Native.Char.{code}
use Prim.Native.String as Text
use Prim.Native.String.{String}
use mathlib.Core.Path.{◌≡◌, refl, ◌∙◌, ap}
use mathlib.Core.Logic.{inl, inr}
use mathlib.Core.Bool.{Bool, true, false, ◌&&◌}
use mathlib.Core.Option.{Option, none, some}
use native.Mathlib.Omega.{arith}
use text.Mathlib.TextLemmas.{nil-append, cons-append}
use indy_node.Base.Tests.{if◌then◌else◌, ltb, leb, Bool-cases}

abbrev digit : ℕ → String
digit zero = "0"
digit (suc zero) = "1"
digit (suc (suc zero)) = "2"
digit (suc (suc (suc zero))) = "3"
digit (suc (suc (suc (suc zero)))) = "4"
digit (suc (suc (suc (suc (suc zero))))) = "5"
digit (suc (suc (suc (suc (suc (suc zero)))))) = "6"
digit (suc (suc (suc (suc (suc (suc (suc zero))))))) = "7"
digit (suc (suc (suc (suc (suc (suc (suc (suc zero)))))))) = "8"
digit n = "9"

-- The digits of a number that is below ten to the power of the fuel, which the number itself is.
unfoldable pub digits : (fuel n : ℕ) → String
digits zero n = digit n
digits (suc fuel) n =
    let higher = digits fuel (n / 10) in
    if ltb n 10 then digit n else Text.◌++◌ higher (digit (n % 10))

-- `str(n)`
unfoldable pub str_of : ℕ → String
str_of n = digits n n

-- The value of the digits behind a prefix that has a value; `none` is ValueError. Signs, blanks and
-- underscores, which `int` reads too, are not written by `str_of`.
unfoldable pub read_digits : ℕ → String → Option ℕ
read_digits value Text.[] = some value
read_digits value (Text.◌∷◌ c s) =
    let rest = read_digits (value * 10 + (code c - 48)) s in
    if leb 48 (code c) && leb (code c) 57 then rest else none

-- `int(s)`
unfoldable pub int_of : String → Option ℕ
int_of Text.[] = none
int_of (Text.◌∷◌ c s) = read_digits 0 (Text.◌∷◌ c s)

read-append :
    (v w : ℕ) (s t : String)
    → read_digits v s ≡ some w
    → read_digits v (Text.◌++◌ s t) ≡ read_digits w t
unfolding read_digits
read-append v w Text.[] t h = rw nil-append (ground (arith, h))
read-append v w (Text.◌∷◌ c s) t h =
    rw cons-append (ground (arith, h, read-append (v * 10 + (code c - 48)) w s t))

read-digit : (v n : ℕ) → n < 10 → read_digits v (digit n) ≡ some (v * 10 + n)
unfolding read_digits
read-digit v zero h = ground arith
read-digit v (suc zero) h = ground arith
read-digit v (suc (suc zero)) h = ground arith
read-digit v (suc (suc (suc zero))) h = ground arith
read-digit v (suc (suc (suc (suc zero)))) h = ground arith
read-digit v (suc (suc (suc (suc (suc zero))))) h = ground arith
read-digit v (suc (suc (suc (suc (suc (suc zero)))))) h = ground arith
read-digit v (suc (suc (suc (suc (suc (suc (suc zero))))))) h = ground arith
read-digit v (suc (suc (suc (suc (suc (suc (suc (suc zero)))))))) h = ground arith
read-digit v (suc (suc (suc (suc (suc (suc (suc (suc (suc zero))))))))) h = ground arith
read-digit v (suc (suc (suc (suc (suc (suc (suc (suc (suc (suc n)))))))))) h =
    absurd (omega (arith, h))

start : (n : ℕ) → 0 * 10 + n ≡ n
start n = omega arith

parts : (n : ℕ) → n / 10 * 10 + n % 10 ≡ n
parts n = omega arith

first : (n : ℕ) → n < 10 → read_digits 0 (digit n) ≡ some n
first n h = read-digit 0 n h ∙ ap (λ k. some k) (start n)

read-digits : (fuel n : ℕ) → n ≤ fuel → read_digits 0 (digits fuel n) ≡ some n
unfolding digits
read-digits zero n h = ground (arith, h, first n)
read-digits (suc fuel) n h = elim (Bool-cases (ltb n 10)) [
  | inl e ↦ rw e (first n (ground arith))
  | inr e ↦
      let higher = read-digits fuel (n / 10) (omega (arith, h)) in
      rw e (
        read-append 0 (n / 10) (digits fuel (n / 10)) (digit (n % 10)) higher
        ∙ (read-digit (n / 10) (n % 10) (omega arith) ∙ ap (λ k. some k) (parts n)))
]

is_empty : String → Bool
is_empty Text.[] = true
is_empty (Text.◌∷◌ c s) = false

append-nonempty : (s t : String) → is_empty s ≡ false → is_empty (Text.◌++◌ s t) ≡ false
unfolding is_empty
append-nonempty Text.[] t h = ground (arith, h)
append-nonempty (Text.◌∷◌ c s) t h = rw cons-append refl

digit-nonempty : (n : ℕ) → is_empty (digit n) ≡ false
unfolding is_empty
digit-nonempty zero = refl
digit-nonempty (suc zero) = refl
digit-nonempty (suc (suc zero)) = refl
digit-nonempty (suc (suc (suc zero))) = refl
digit-nonempty (suc (suc (suc (suc zero)))) = refl
digit-nonempty (suc (suc (suc (suc (suc zero))))) = refl
digit-nonempty (suc (suc (suc (suc (suc (suc zero)))))) = refl
digit-nonempty (suc (suc (suc (suc (suc (suc (suc zero))))))) = refl
digit-nonempty (suc (suc (suc (suc (suc (suc (suc (suc zero)))))))) = refl
digit-nonempty (suc (suc (suc (suc (suc (suc (suc (suc (suc zero))))))))) = refl
digit-nonempty (suc (suc (suc (suc (suc (suc (suc (suc (suc (suc n)))))))))) = refl

digits-nonempty : (fuel n : ℕ) → is_empty (digits fuel n) ≡ false
unfolding digits
digits-nonempty zero n = digit-nonempty n
digits-nonempty (suc fuel) n = ground (
  arith,
  digit-nonempty n,
  append-nonempty (digits fuel (n / 10)) (digit (n % 10)) (digits-nonempty fuel (n / 10)),
)

int_of-nonempty : (s : String) → is_empty s ≡ false → int_of s ≡ read_digits 0 s
unfolding is_empty int_of
int_of-nonempty Text.[] h = ground (arith, h)
int_of-nonempty (Text.◌∷◌ c s) h = refl

-- A number that is written is read back.
pub int_of-str_of : (n : ℕ) → int_of (str_of n) ≡ some n
unfolding str_of
int_of-str_of n = int_of-nonempty (digits n n) (digits-nonempty n n) ∙ read-digits n n (omega arith)
