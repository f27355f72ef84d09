-- ===== src/Base/Lists.antt =====
-- Lists and dictionaries. A dictionary is its list of items, in insertion order.
use Prim.Native.Nat.{ℕ, suc, ◌+◌}
use Prim.Native.String.{String}
use mathlib.Core.Path.{◌≡◌, refl}
use mathlib.Core.Bool.{Bool, false, ◌||◌}
use mathlib.Core.Option.{Option, none, some}
use mathlib.Core.List.{List, [], ◌∷◌, ◌++◌}
use native.Mathlib.Omega.{arith}
use text.Mathlib.Text.{◌==◌}
use text.Mathlib.TextEquality.{eq_iff}
use mathlib.Core.Logic.{◌≢◌}
use mathlib.Core.Path.{sym}
use indy_node.Base.Tests.{if◌then◌else◌, other_eq, same_eq}

module _ {ℓ} {A : Type ℓ} where
  abbrev pub length : List A → ℕ
  length [] = 0
  length (x ∷ xs) = suc (length xs)

module _ {ℓ} {A : Type ℓ} where
  pub length-append : (xs ys : List A) → length (xs ++ ys) ≡ length xs + length ys
  length-append [] ys = omega arith
  length-append (x ∷ xs) ys = omega (arith, length-append xs ys)

module _ {ℓ} {V : Type ℓ} where
  -- `d.get(k)`
  abbrev pub get : String → List (String × V) → Option V
  get k [] = none
  get k ((j, v) ∷ d) = if j == k then some v else get k d

  -- `k in d`
  abbrev pub has_key : String → List (String × V) → Bool
  has_key k [] = false
  has_key k ((j, v) ∷ d) = (j == k) || has_key k d

  -- `d[k] = v`
  abbrev pub put : String → V → List (String × V) → List (String × V)
  put k v [] = (k, v) ∷ []
  put k v ((j, w) ∷ d) = if j == k then (j, v) ∷ d else (j, w) ∷ put k v d

  -- `d.update(e)`
  abbrev pub update : List (String × V) → List (String × V) → List (String × V)
  update d [] = d
  update d ((k, v) ∷ e) = update (put k v d) e

module _ {ℓ} {V : Type ℓ} where
  pub get-put :
      (k j : String) (v : V) (d : List (String × V))
      → get j (put k v d) ≡ (if k == j then some v else get j d)
  get-put k j v [] = refl
  get-put k j v ((i, w) ∷ d) = ground (arith, eq_iff k j, eq_iff i k, eq_iff i j, get-put k j v d)

module _ {ℓ} {V : Type ℓ} (p q : String) (v w : V) (d : List (String × V)) (other : p ≢ q) where
  -- Two writes under different keys.
  pub get-put-put :
      (get p (put q w (put p v d)) ≡ some v)
      × (get q (put q w (put p v d)) ≡ some w)
      × ((k : String) → k ≢ p → k ≢ q → get k (put q w (put p v d)) ≡ get k d)
  get-put-put = (
    rw get-put (rw (other_eq q p (λ e. other (sym e))) (rw get-put (rw (same_eq p)))),
    rw get-put (rw (same_eq q)),
    λ k n m.
        rw get-put
          (rw (other_eq q k (λ e. m (sym e))) (rw get-put (rw (other_eq p k (λ e. n (sym e)))))),
  )
