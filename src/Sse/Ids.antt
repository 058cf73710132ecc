-- ===== src/Sse/Ids.antt =====
-- internal/sse/broker.go, `newID`: eight random bytes in hexadecimal. What `rand.Read` draws is an argument.
use mathlib.Core.Path.{ap₂}
use monitoring.Base.{
  ltb, if◌then◌else◌, All, Text, ℕ, ◌+◌, ◌-◌, ◌/◌, ◌%◌, ◌<◌, ◌≡◌, refl, List, [], ◌∷◌, arith,
}

-- `hex.EncodeToString`
unfoldable pub hex_digit : ℕ → ℕ
hex_digit n = if ltb n 10 then b'0' + n else b'a' + (n - 10)

unfoldable pub new_id : List ℕ → Text
unfolding hex_digit
new_id [] = []
new_id (b ∷ bs) = hex_digit (b / 16) ∷ hex_digit (b % 16) ∷ new_id bs

hex_digit-injective : (m n : ℕ) → m < 16 → n < 16 → hex_digit m ≡ hex_digit n → m ≡ n
unfolding hex_digit
hex_digit-injective m n hm hn e = ground arith

byte_parts : (a b : ℕ) → a / 16 ≡ b / 16 → a % 16 ≡ b % 16 → a ≡ b
byte_parts a b p q = omega arith

abbrev pub IsByte : ℕ → Type 0
IsByte b = b < 256

-- Two draws of bytes have the same id only if they are the same.
pub new_id-injective :
    (xs bs : List ℕ) → All IsByte xs → All IsByte bs → new_id xs ≡ new_id bs → xs ≡ bs
unfolding new_id
new_id-injective [] [] h k e = refl
new_id-injective [] (b ∷ bs) h k e = cc
new_id-injective (a ∷ xs) [] h k e = cc
new_id-injective (a ∷ xs) (b ∷ bs) h k e =
    let high : hex_digit (a / 16) ≡ hex_digit (b / 16) = cc in
    let low : hex_digit (a % 16) ≡ hex_digit (b % 16) = cc in
    let rest : new_id xs ≡ new_id bs = cc in
    let p = hex_digit-injective (a / 16) (b / 16) (omega arith) (omega arith) high in
    let q = hex_digit-injective (a % 16) (b % 16) (omega arith) (omega arith) low in
    ap₂ ◌∷◌ (byte_parts a b p q) (new_id-injective xs bs h.1 k.1 rest)
