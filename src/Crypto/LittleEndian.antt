-- ===== src/Crypto/LittleEndian.antt =====
-- `to_le_bytes` of an unsigned integer.
use funtonic.Base.{ℕ, zero, suc, ◌/◌, ◌%◌, ◌^◌, ◌<◌, ◌≡◌, refl, ap, List, [], ◌∷◌, arith, length}
use native.Mathlib.Nat.{pow-suc}

-- The lowest `k` bytes of `n`, the lowest first.
unfoldable pub le_bytes : ℕ → ℕ → List ℕ
le_bytes zero n = []
le_bytes (suc k) n = n % 256 ∷ le_bytes k (n / 256)

-- `u64::to_le_bytes`
abbrev pub u64_le_bytes : ℕ → List ℕ
u64_le_bytes = le_bytes 8

pub length-le_bytes : (k n : ℕ) → length (le_bytes k n) ≡ k
unfolding le_bytes
length-le_bytes zero n = refl
length-le_bytes (suc k) n = ap suc (length-le_bytes k (n / 256))

div_256_lt : (k m : ℕ) → m < 256 ^ suc k → m / 256 < 256 ^ k
div_256_lt k m h = omega (arith, pow-suc 256 k)

eq_of_div_mod : (m n : ℕ) → m % 256 ≡ n % 256 → m / 256 ≡ n / 256 → m ≡ n
eq_of_div_mod m n e f = omega arith

-- Integers that fit in `k` bytes and have the same bytes are equal.
pub le_bytes-injective :
    (k m n : ℕ) → m < 256 ^ k → n < 256 ^ k → le_bytes k m ≡ le_bytes k n → m ≡ n
unfolding le_bytes
le_bytes-injective zero m n hm hn e = omega arith
le_bytes-injective (suc k) m n hm hn e =
    eq_of_div_mod m n (cc)
      (le_bytes-injective k (m / 256) (n / 256) (div_256_lt k m hm) (div_256_lt k n hn) (cc))
