-- ===== src/Crypto/Hex.antt =====
-- Hexadecimal (apps/web/src/crypto/onboarding-crypto.ts). A text that code walks is the list of its
-- UTF-16 code units.
use privex.Prelude.{
  ℕ, ◌+◌, ◌-◌, ◌*◌, ◌/◌, ◌%◌, ◌<◌, ◌≡◌, refl, ap, sym, ◌∙◌, Bool, ◌&&◌, ◌||◌, List, [], ◌∷◌, Option,
  none, some, arith, leb, ◌==◌, nat_eq, if◌then◌else◌, All,
}

abbrev pub Bytes : Type 0
Bytes = List ℕ

abbrev pub Text : Type 0
Text = List ℕ

abbrev pub IsBytes : Bytes → Type 0
IsBytes b = All (λ x. x < 256) b

-- one digit of `b.toString(16)`
hex_digit : ℕ → ℕ
hex_digit d = if leb d 9 then d + 48 else d + 87

unfoldable pub to_hex : Bytes → Text
unfolding hex_digit
to_hex [] = []
to_hex (b ∷ bs) = hex_digit (b / 16) ∷ hex_digit (b % 16) ∷ to_hex bs

-- the value of a digit for `parseInt(…, 16)`
pub digit_value : ℕ → Option ℕ
digit_value c =
    if leb 48 c && leb c 57
    then some (c - 48)
    else if leb 97 c && leb c 102
    then some (c - 87)
    else if leb 65 c && leb c 70
    then some (c - 55)
    else none

-- the white space that `parseInt` skips
is_space : ℕ → Bool
is_space c =
    (leb 9 c && leb c 13)
    || c == 32
    || c == 160
    || c == 5760
    || (leb 8192 c && leb c 8202)
    || c == 8232
    || c == 8233
    || c == 8239
    || c == 8287
    || c == 12288
    || c == 65279

-- `parseInt` on one character that follows white space or a sign; NaN is stored as 0
tail_value : Option ℕ → ℕ
tail_value none = 0
tail_value (some v) = v

-- `parseInt(two characters, 16)` stored in a `Uint8Array`
pair_value : Option ℕ → ℕ → ℕ → ℕ
unfolding digit_value is_space tail_value
pair_value (some hi) a b = elim (digit_value b) [ none ↦ hi | some lo ↦ hi * 16 + lo ]
pair_value none a b =
    if a == 45
    then (256 - tail_value (digit_value b)) % 256
    else if a == 43 || is_space a
    then tail_value (digit_value b)
    else 0

unfoldable pub from_hex : Text → Bytes
unfolding pair_value digit_value
from_hex [] = []
from_hex (a ∷ []) = []
from_hex (a ∷ b ∷ r) = pair_value (digit_value a) a b ∷ from_hex r

digit_value-hex_digit : (d : ℕ) → d < 16 → digit_value (hex_digit d) ≡ some d
unfolding digit_value hex_digit
digit_value-hex_digit d h = ground arith

pair_value-hex_digit :
    (x : ℕ)
    → x < 256
    → pair_value (digit_value (hex_digit (x / 16))) (hex_digit (x / 16)) (hex_digit (x % 16)) ≡ x
unfolding pair_value
pair_value-hex_digit x h =
    rw (digit_value-hex_digit (x / 16) (omega arith), pair_value)
      (rw (digit_value-hex_digit (x % 16) (omega arith), pair_value) (omega arith))

-- Decoding the hexadecimal form of a byte string gives the byte string back.
pub from_hex-to_hex : (b : Bytes) → IsBytes b → from_hex (to_hex b) ≡ b
unfolding to_hex from_hex
from_hex-to_hex [] h = refl
from_hex-to_hex (x ∷ b) (h, r) = cc (pair_value-hex_digit x h, from_hex-to_hex b r)

-- Byte strings with one hexadecimal form are one byte string.
pub to_hex-injective : (a b : Bytes) → IsBytes a → IsBytes b → to_hex a ≡ to_hex b → a ≡ b
to_hex-injective a b h k e = sym (from_hex-to_hex a h) ∙ ap from_hex e ∙ from_hex-to_hex b k
