-- ===== src/Db/Aes.antt =====
-- A sealed field at rest: the initialisation vector, then the ciphertext (`aesEncrypt` and `aesDecrypt`
-- of apps/web/src/db/encrypted-db.ts). AES-GCM itself is the browser's.
use privex.Prelude.{
  ◌≡◌, refl, sym, ◌∙◌, ℕ, Option, some, ◌++◌, take, drop, take-append, drop-append, length,
}
use privex.Crypto.Hex.{Bytes}
use privex.Db.Rekey.{Aes}
use privex.Db.Rekey.Kept.{IsLossless}

pub record Gcm : Type 0 where
  pub encrypt : Bytes → Bytes → Bytes → Bytes
  pub decrypt : Bytes → Bytes → Bytes → Option Bytes

abbrev pub iv_len : ℕ
iv_len = 12

-- what the browser documents: with its own vector and key a ciphertext opens to what was sealed
pub record OpensAgain (gcm : Gcm) : Type 0 where
  pub opens : (iv key plain : Bytes) → gcm.decrypt iv key (gcm.encrypt iv key plain) ≡ some plain

module _ (gcm : Gcm) where
  -- `iv` is what the random generator draws
  abbrev pub aes_encrypt : Bytes → Bytes → Bytes → Bytes
  aes_encrypt iv key plain = iv ++ gcm.encrypt iv key plain

  abbrev pub aes_decrypt : Bytes → Bytes → Option Bytes
  aes_decrypt key blob = gcm.decrypt (take iv_len blob) key (drop iv_len blob)

  abbrev pub aes : Bytes → Aes
  aes iv = record { encrypt = aes_encrypt iv; decrypt = aes_decrypt }

-- a vector of n bytes and what follows it
split-at :
    {C : Type 0} (f : Bytes → Bytes → C) (iv c : Bytes) (n : ℕ)
    → length iv ≡ n
    → f (take n (iv ++ c)) (drop n (iv ++ c)) ≡ f iv c
split-at f iv c n h = rw (sym h, take-append iv c, drop-append iv c) refl

-- With a vector of twelve bytes a key opens every field that it sealed.
pub aes-IsLossless :
    (gcm : Gcm) (iv : Bytes) → OpensAgain gcm → length iv ≡ iv_len → IsLossless (aes gcm iv)
aes-IsLossless gcm iv law h = record {
  opens = λ key plain.
      split-at (λ a b. gcm.decrypt a key b) iv (gcm.encrypt iv key plain) iv_len h
      ∙ law.opens iv key plain;
}
