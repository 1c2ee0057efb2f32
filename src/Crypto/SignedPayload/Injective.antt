-- ===== src/Crypto/SignedPayload/Injective.antt =====
-- What a signature covers.
use funtonic.Base.{ℕ, ◌^◌, ◌<◌, ◌≡◌, refl, ap, [], ◌∷◌, ◌++◌, arith, length, length-append}
use funtonic.Crypto.LittleEndian.{le_bytes, length-le_bytes, le_bytes-injective}
use funtonic.Crypto.Library.{Bytes}
use funtonic.Crypto.SignedPayload.{to_sign_from_exploded_payload}

-- Equal lists whose ends are as long have equal ends.
append-injective :
    (xs ys a b : Bytes) → length a ≡ length b → xs ++ a ≡ ys ++ b → (xs ≡ ys) × (a ≡ b)
append-injective [] [] a b h e = (refl, e)
append-injective [] (y ∷ ys) a b h e = absurd (omega (arith, ap length e, length-append {0} ys b))
append-injective (x ∷ xs) [] a b h e = absurd (omega (arith, ap length e, length-append {0} xs a))
append-injective (x ∷ xs) (y ∷ ys) a b h e =
    let (p, q) = append-injective xs ys a b h (cc) in (cc, q)

-- Two payloads, nonces and expiry times (both numbers below 2^64) that give the same bytes to sign
-- are the same: a signature cannot be moved to another payload, nonce or expiry time.
pub to_sign-injective :
    (p q : Bytes) (m n s t : ℕ)
    → m < 2 ^ 64
    → n < 2 ^ 64
    → s < 2 ^ 64
    → t < 2 ^ 64
    → to_sign_from_exploded_payload p m s ≡ to_sign_from_exploded_payload q n t
    → (p ≡ q) × (m ≡ n) × (s ≡ t)
unfolding to_sign_from_exploded_payload
to_sign-injective p q m n s t hm hn hs ht e =
    let (front, ends) =
      append-injective (p ++ le_bytes 8 m) (q ++ le_bytes 8 n) (le_bytes 8 s) (le_bytes 8 t)
        (omega (arith, length-le_bytes 8 s, length-le_bytes 8 t)) e in
    let (payloads, nonces) =
      append-injective p q (le_bytes 8 m) (le_bytes 8 n)
        (omega (arith, length-le_bytes 8 m, length-le_bytes 8 n)) front in
    (payloads, le_bytes-injective 8 m n hm hn nonces, le_bytes-injective 8 s t hs ht ends)
