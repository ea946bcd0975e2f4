-- ===== src/DeviceLink/Sas.antt =====
-- The short authentication string (`computeSAS` of apps/web/src/services/devicelink.ts).
use privex.Prelude.{
  ◌≡◌, refl, ap₂, sym, ℕ, zero, suc, ◌+◌, ◌*◌, ◌/◌, ◌%◌, Bool, true, false, [], ◌∷◌, ◌++◌, ltb,
  nat_beq, if◌then◌else◌, Bool-cases, inl, inr, arith,
}
use privex.Crypto.Hex.{Bytes, Text, IsBytes, to_hex, to_hex-injective}

-- `<=` on texts
abbrev pub text_le : Text → Text → Bool
text_le [] t = true
text_le (c ∷ s) [] = false
text_le (c ∷ s) (d ∷ t) = let rest = text_le s t in if nat_beq c d then rest else ltb c d

-- `h[i]`, an absent byte counting as 0 in the shifts
abbrev pub byte_at : ℕ → Bytes → ℕ
byte_at n [] = 0
byte_at zero (x ∷ b) = x
byte_at (suc n) (x ∷ b) = byte_at n b

-- the decimal digits of a number below 10^6, with leading zeros
abbrev pub six_digits : ℕ → Text
six_digits n =
    (48 + n / 100000 % 10)
    ∷ (48 + n / 10000 % 10)
    ∷ (48 + n / 1000 % 10)
    ∷ (48 + n / 100 % 10)
    ∷ (48 + n / 10 % 10)
    ∷ (48 + n % 10)
    ∷ []

abbrev pub in_order : Bytes → Bytes → Bytes
in_order a b = if text_le (to_hex a) (to_hex b) then a ++ b else b ++ a

unfoldable pub compute_sas : (Bytes → Bytes) → Bytes → Bytes → Text
compute_sas sha256 a b =
    let h = sha256 (in_order a b) in
    six_digits (
      (byte_at 0 h * 16777216 + byte_at 1 h * 65536 + byte_at 2 h * 256 + byte_at 3 h)
      % 4294967296
      % 1000000)

text_le-antisym : (s t : Text) → text_le s t ≡ true → text_le t s ≡ true → s ≡ t
text_le-antisym [] [] p q = refl
text_le-antisym [] (d ∷ t) p q = absurd cc
text_le-antisym (c ∷ s) [] p q = absurd cc
text_le-antisym (c ∷ s) (d ∷ t) p q = ground (arith, text_le-antisym s t)

text_le-total : (s t : Text) → text_le s t ≡ false → text_le t s ≡ true
text_le-total [] t p = absurd cc
text_le-total (c ∷ s) [] p = refl
text_le-total (c ∷ s) (d ∷ t) p = ground (arith, text_le-total s t)

in_order_comm : (a b : Bytes) → IsBytes a → IsBytes b → in_order a b ≡ in_order b a
in_order_comm a b ha hb = elim (Bool-cases (text_le (to_hex a) (to_hex b))) [
  | inl p ↦ elim (Bool-cases (text_le (to_hex b) (to_hex a))) [
    | inl q ↦
        rw (p, q)
          (let e = to_hex-injective a b ha hb (text_le-antisym _ _ p q) in ap₂ ◌++◌ e (sym e))
    | inr q ↦ rw (p, q) refl
  ]
  | inr p ↦ rw (p, text_le-total _ _ p) refl
]

-- Both devices show the same string, whichever key each of them counts as its own.
pub compute_sas_comm :
    (sha256 : Bytes → Bytes) (a b : Bytes)
    → IsBytes a
    → IsBytes b
    → compute_sas sha256 a b ≡ compute_sas sha256 b a
unfolding compute_sas
compute_sas_comm sha256 a b ha hb = rw (in_order_comm a b ha hb) refl
