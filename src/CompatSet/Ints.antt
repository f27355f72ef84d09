-- ===== src/CompatSet/Ints.antt =====
-- `int` elements: their equality, and the hash that CPython gives them on a 64-bit machine.
use Prim.Native.Nat.{◌%◌}
use indy_node.Base.{ℕ, zero, suc, Bool, true, false, num_eq, ◌≡◌, refl, ap, arith}
use indy_node.CompatSet.{ℤ, pos, negsuc, Key}
use indy_node.CompatSet.Table.Good.{Plain}

-- `2 ** 61 - 1`
abbrev pub modulus : ℕ
modulus = 2305843009213693951

abbrev pub int_equal : ℤ → ℤ → Bool
int_equal (pos a) (pos b) = num_eq a b
int_equal (negsuc a) (negsuc b) = num_eq a b
int_equal _ _ = false

-- The hash of `-n`, where -1 stands for an error, so that `hash(-1)` is -2.
abbrev pub negative_hash : ℕ → ℤ
negative_hash zero = pos 0
negative_hash (suc zero) = negsuc 1
negative_hash (suc (suc n)) = negsuc (suc n)

-- `hash(n)`
abbrev pub int_hash : ℤ → ℤ
int_hash (pos n) = pos (n % modulus)
int_hash (negsuc n) = negative_hash (suc n % modulus)

pub int_equal_sound : (x y : ℤ) → int_equal x y ≡ true → x ≡ y
int_equal_sound (pos a) (pos b) e = ap pos (ground (arith, e))
int_equal_sound (pos a) (negsuc b) e = absurd (ground (arith, e))
int_equal_sound (negsuc a) (pos b) e = absurd (ground (arith, e))
int_equal_sound (negsuc a) (negsuc b) e = ap negsuc (ground (arith, e))

pub int_equal_refl : (x : ℤ) → int_equal x x ≡ true
int_equal_refl (pos a) = ground arith
int_equal_refl (negsuc a) = ground arith

pub num_equal_sound : (x y : ℕ) → num_eq x y ≡ true → x ≡ y
num_equal_sound x y e = ground (arith, e)

pub num_equal_refl : (x : ℕ) → num_eq x x ≡ true
num_equal_refl x = ground arith

instance abbrev pub int_key : Key ℤ
int_key = record {
  equal = int_equal;
  hash = int_hash;
  equal_sound = int_equal_sound;
  equal_refl = int_equal_refl;
}

-- Indices, which are not negative.
instance abbrev pub index_key : Key ℕ
index_key = record {
  equal = num_eq;
  hash = λ n. int_hash (pos n);
  equal_sound = num_equal_sound;
  equal_refl = num_equal_refl;
}

pub index-Plain : Plain ℕ
index-Plain n = (n % modulus, refl)
