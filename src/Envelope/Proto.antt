-- ===== src/Envelope/Proto.antt =====
-- The generated protobuf code as an interface: its message types, fields absent or present, and its
-- codec (packages/protocol/proto/messages.proto, used by apps/web/src/services/envelope.ts).
use privex.Prelude.{ℕ, String, ◌≡◌, Bool, Option, none, some, List, [], nat_eq, string_eq, bytes_eq}
use mathlib.Core.Option
use privex.Crypto.Hex.{Bytes}

-- a 64-bit field: a number, or an object with `toNumber`
pub data Num : Type 0 where
  number long : ℕ → Num

unfoldable pub to_num : Option Num → ℕ
to_num none = 0
to_num (some (number n)) = n
to_num (some (long n)) = n

abbrev pub u8 : Option Bytes → Bytes
u8 none = []
u8 (some b) = b

pub record ProtoText : Type 0 where
  pub body : Option String
  pub sent_at : Option Num

pub record ProtoFile : Type 0 where
  pub filename_encrypted : Option Bytes
  pub mime_type_encrypted : Option Bytes
  pub total_size : Option Num
  pub sha256_plaintext : Option Bytes
  pub chunk_ids : Option (List String)
  pub wrapped_cek : Option Bytes
  pub cek_eph_pub : Option Bytes
  pub thumbnail_encrypted : Option Bytes
  pub sent_at : Option Num

-- `contactHello` and `contactAccept`
pub record ProtoNote : Type 0 where
  pub sent_at : Option Num

pub record ProtoReceipt : Type 0 where
  pub token_id : Option Bytes
  pub receipt_type : Option String

pub record ProtoReceiptRequest : Type 0 where
  pub token_id : Option Bytes
  pub request_delivery : Option Bool
  pub request_read : Option Bool

pub record ProtoContent : Type 0 where
  pub text : Option ProtoText
  pub file : Option ProtoFile
  pub contact_hello : Option ProtoNote
  pub contact_accept : Option ProtoNote
  pub receipt : Option ProtoReceipt
  pub receipt_request : Option ProtoReceiptRequest

pub record ProtoPqxdh : Type 0 where
  pub alice_ik_pub : Option Bytes
  pub alice_ek_pub : Option Bytes
  pub kyber_ciphertext : Option Bytes
  pub opk_used : Option Bool
  pub opk_id : Option ℕ

pub record ProtoDeviceSync : Type 0 where
  pub to_device : Option Bytes
  pub from_device : Option Bytes
  pub blob : Option Bytes

pub record ProtoEnvelope : Type 0 where
  pub ratchet_header : Option Bytes
  pub ratchet_ciphertext : Option Bytes
  pub pqxdh : Option ProtoPqxdh
  pub device_sync : Option ProtoDeviceSync

-- What a decoder returns for the 64-bit fields of an encoded message.
abbrev pub read_num : (ℕ → Num) → Option Num → Option Num
read_num as_read none = none
read_num as_read (some n) = some (as_read (to_num (some n)))

abbrev pub read_content : (ℕ → Num) → ProtoContent → ProtoContent
read_content as_read c = record c {
  text = Option.map (λ (t : ProtoText). record t { sent_at = read_num as_read t.sent_at }) c.text;
  file =
      Option.map
        (λ (f : ProtoFile). record f {
          total_size = read_num as_read f.total_size;
          sent_at = read_num as_read f.sent_at;
        })
        c.file;
  contact_hello =
      Option.map (λ (n : ProtoNote). record n { sent_at = read_num as_read n.sent_at })
        c.contact_hello;
  contact_accept =
      Option.map (λ (n : ProtoNote). record n { sent_at = read_num as_read n.sent_at })
        c.contact_accept;
}

-- The generated code: `encode(…).finish()` and `decode`, `none` if it throws.
pub record ProtoCodec : Type 0 where
  pub encode_content : ProtoContent → Bytes
  pub decode_content : Bytes → Option ProtoContent
  pub encode_envelope : ProtoEnvelope → Bytes
  pub decode_envelope : Bytes → Option ProtoEnvelope

-- What the generated code documents of a message that its schema can hold: it is decoded as it was
-- encoded, its 64-bit fields in the decoder's form `as_read`.
pub record ReadsBack (codec : ProtoCodec) (c : ProtoContent) : Type 0 where
  pub as_read : ℕ → Num
  pub as_read_num : (n : ℕ) → to_num (some (as_read n)) ≡ n
  pub back : codec.decode_content (codec.encode_content c) ≡ some (read_content as_read c)

-- The same of an envelope, which has no such field.
pub record EnvelopeReadsBack (codec : ProtoCodec) (e : ProtoEnvelope) : Type 0 where
  pub envelope_back : codec.decode_envelope (codec.encode_envelope e) ≡ some e
