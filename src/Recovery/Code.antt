-- ===== src/Recovery/Code.antt =====
-- The code of a recovery (`parseRecoveryCode` of apps/web/src/services/recovery.ts).
use privex.Prelude.{
  ◌≡◌, refl, sym, ℕ, ◌+◌, ◌++◌, take, drop, take-append, drop-append, length, length-append,
  nat_beq, true, arith,
}
use privex.Crypto.Hex.{Bytes, Text, IsBytes, to_hex, from_hex-to_hex}
use privex.Exec.{done}
use privex.Recovery.{recovery_id_len, rk_pub_len, recovery_code, parse_recovery_code}

split_code :
    {C : Type 0} (f : Bytes → Bytes → C) (rid pk : Bytes) (n : ℕ)
    → length rid ≡ n
    → f (take n (rid ++ pk)) (drop n (rid ++ pk)) ≡ f rid pk
split_code f rid pk n h = rw (sym h, take-append rid pk, drop-append rid pk) refl

code_length :
    (rid pk : Bytes)
    → length rid ≡ recovery_id_len
    → length pk ≡ rk_pub_len
    → nat_beq (length (rid ++ pk)) (recovery_id_len + rk_pub_len) ≡ true
code_length rid pk h k = ground (arith, length-append rid pk)

-- The code made of an id of 16 bytes and a key of 32 is parsed as the hexadecimal form of the id and that
-- key, where trimming leaves a text without white space.
pub parse_recovery_code-recovery_code :
    (trim : Text → Text) (rid pk : Bytes)
    → trim (recovery_code rid pk) ≡ recovery_code rid pk
    → IsBytes (rid ++ pk)
    → length rid ≡ recovery_id_len
    → length pk ≡ rk_pub_len
    → parse_recovery_code trim (recovery_code rid pk)
      ≡ done (record { recovery_id = to_hex rid; rk_pub = pk })
unfolding parse_recovery_code recovery_code
parse_recovery_code-recovery_code trim rid pk trimmed b h k =
    rw (trimmed, from_hex-to_hex (rid ++ pk) b, code_length rid pk h k)
      (split_code (λ x y. done (record { recovery_id = to_hex x; rk_pub = y })) rid pk
        recovery_id_len h)
