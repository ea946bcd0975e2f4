-- ===== src/DeviceSync/Padding.antt =====
-- Laws of the padding and of the record codec (apps/web/src/services/device-sync.ts).
use privex.Prelude.{
  ℕ, ◌+◌, ◌-◌, ◌*◌, ◌/◌, ◌%◌, ◌^◌, ◌<◌, ◌≡◌, refl, ap, ◌∙◌, true, false, some, ◌++◌, arith, ltb,
  length, replicate, length-append, length-replicate, take-append, nat_eq, string_eq, bytes_eq,
}
use privex.Crypto.Hex.{Bytes}
use privex.DeviceSync.{
  pad, unpad, padded_size, SyncEnv, SyncRecord, encrypt_sync_record, decrypt_sync_record,
  is_well_formed,
}

-- Padding is undone exactly, for data shorter than 2^32 bytes.
pub unpad-pad : (bytes : Bytes) → length bytes < 2 ^ 32 → unpad (pad bytes) ≡ some bytes
unfolding pad unpad
unpad-pad bytes h =
    let n : ℕ = length bytes in
    let tail : Bytes = replicate (padded_size (4 + n) - (4 + n)) 0 in
    let len : n % 256
          + n / 256 % 256 * 256
          + n / 65536 % 256 * 65536
          + n / 16777216 % 256 * 16777216
        ≡ n =
      omega arith in
    let fits : ltb (4 + length (bytes ++ tail)) (4 + n) ≡ false =
      ground (arith, length-append bytes tail) in
    rw len (rw fits (rw take-append refl))

-- The padded form has a length that is a multiple of 1024 and depends on the data only through its
-- size in such blocks.
pub length-pad :
    (bytes : Bytes)
    → (length (pad bytes) ≡ padded_size (4 + length bytes)) × (length (pad bytes) % 1024 ≡ 0)
unfolding pad
length-pad bytes =
    let n : ℕ = length bytes in
    let k : ℕ = padded_size (4 + n) - (4 + n) in
    let e1 : length (bytes ++ replicate k 0) ≡ n + k =
      length-append bytes (replicate k 0) ∙ ap (λ x. n + x) (length-replicate k 0) in
    (omega (arith, e1), omega (arith, e1))

-- With a cipher that opens what it sealed and a parser that reads this record as it was printed, the
-- other device reads the record that was sent, if it is well formed and shorter than 2^32 bytes.
pub decrypt-encrypt :
    (env : SyncEnv) (r : SyncRecord) (key : Bytes)
    → ((k b : Bytes) → env.aes_decrypt k (env.aes_encrypt k b) ≡ some b)
    → env.parse (env.stringify r) ≡ some r
    → length (env.stringify r) < 2 ^ 32
    → is_well_formed r ≡ true
    → decrypt_sync_record env (encrypt_sync_record env r key) key ≡ some r
unfolding decrypt_sync_record encrypt_sync_record
decrypt-encrypt env r key opens reads short ok =
    rw opens (rw (unpad-pad (env.stringify r) short) (rw reads (rw ok refl)))
