-- ===== src/DeviceLink/Token.antt =====
-- The text of the transfer code (`encodeTransferToken` and `parseTransferToken` of
-- apps/web/src/services/devicelink.ts). Two formats are accepted, the short one first.
use privex.Prelude.{
  ◌≡◌, refl, sym, ℕ, ◌+◌, Bool, true, ◌&&◌, Option, none, some, [], ◌∷◌, ◌++◌, take, drop,
  take-append, drop-append, length, leb, nat_eq, ◌==◌, map, if◌then◌else◌, arith,
}
use privex.Crypto.Hex.{Text}
use privex.DeviceLink.{is_lower_hex, all_of, is_hex_of}

pub record QrPayload : Type 0 where
  pub rid : Text
  pub pk : Text

-- a letter A to Z in lowercase
abbrev pub to_lower : ℕ → ℕ
to_lower c = if leb 65 c && leb c 90 then c + 32 else c

abbrev pub lowercase : Text → Text
lowercase t = map to_lower t

-- [0-9a-f] without regard to case
abbrev pub is_hex_of_any_case : ℕ → Text → Bool
is_hex_of_any_case n t = is_hex_of n (lowercase t)

-- "."
abbrev pub dot : ℕ
dot = 46

unfoldable pub encode_transfer_token : QrPayload → Text
encode_transfer_token qr = qr.rid ++ dot ∷ qr.pk

-- what follows the id: the point, and the key
abbrev pub key_after : Text → Text → Option QrPayload
key_after rid [] = none
key_after rid (c ∷ pk) =
    if is_hex_of_any_case 32 rid && c == dot && is_hex_of_any_case 64 pk
    then some (record { rid = lowercase rid; pk = lowercase pk })
    else none

-- /^([0-9a-f]{32})\.([0-9a-f]{64})$/i
abbrev pub match_token : Text → Option QrPayload
match_token t = key_after (take 32 t) (drop 32 t)

abbrev pub valid_qr : QrPayload → Option QrPayload
valid_qr qr = if is_hex_of 32 qr.rid && is_hex_of 64 qr.pk then some qr else none

abbrev pub from_json : Option QrPayload → Option QrPayload
from_json none = none
from_json (some qr) = valid_qr qr

abbrev pub or_json : Option QrPayload → Option QrPayload → Option QrPayload
or_json (some qr) p = some qr
or_json none p = from_json p

-- `trim` is `String.prototype.trim`; `parse_json` reads a payload of version 1 from a JSON text
unfoldable pub parse_transfer_token :
    (Text → Text) → (Text → Option QrPayload) → Text → Option QrPayload
parse_transfer_token trim parse_json s = let t = trim s in or_json (match_token t) (parse_json t)

lowercase-all_of : (t : Text) → all_of is_lower_hex t ≡ true → lowercase t ≡ t
lowercase-all_of [] h = refl
lowercase-all_of (c ∷ t) h = ground (arith, lowercase-all_of t)

-- the parts of a token that starts with a text of n units
split_token :
    (n : ℕ) (rid rest : Text)
    → length rid ≡ n
    → key_after (take n (rid ++ rest)) (drop n (rid ++ rest)) ≡ key_after rid rest
split_token n rid rest h = rw (sym h, take-append rid rest, drop-append rid rest) refl

hex-length : (n : ℕ) (t : Text) → is_hex_of n t ≡ true → length t ≡ n
hex-length n t h = ground arith

hex-lowercase : (n : ℕ) (t : Text) → is_hex_of n t ≡ true → lowercase t ≡ t
hex-lowercase n t h = lowercase-all_of t (ground arith)

-- A code that was encoded from an id of 32 and a key of 64 lowercase hexadecimal digits is parsed as
-- that id and key, whatever reads JSON, where trimming leaves a text without white space.
pub parse_transfer_token-encode_transfer_token :
    (trim : Text → Text) (parse_json : Text → Option QrPayload) (qr : QrPayload)
    → trim (encode_transfer_token qr) ≡ encode_transfer_token qr
    → is_hex_of 32 qr.rid ≡ true
    → is_hex_of 64 qr.pk ≡ true
    → parse_transfer_token trim parse_json (encode_transfer_token qr) ≡ some qr
unfolding parse_transfer_token encode_transfer_token
parse_transfer_token-encode_transfer_token trim parse_json qr trimmed h k =
    rw
      (
        trimmed,
        split_token 32 qr.rid (dot ∷ qr.pk) (hex-length 32 qr.rid h),
        hex-lowercase 32 qr.rid h,
        hex-lowercase 64 qr.pk k,
        h,
        k,
      )
      refl
