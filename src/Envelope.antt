-- ===== src/Envelope.antt =====
-- The message wire format (apps/web/src/services/envelope.ts). The generated protobuf code is not
-- part of the sources: it is the interface `ProtoCodec`, over messages whose fields are as the
-- generated classes have them, absent or present.
pub mod Proto
pub mod RoundTrip
use privex.Prelude.{
  ℕ, String, true, false, Option, none, some, [], ◌∷◌, map, if◌then◌else◌, or_else, is_some, ◌==◌,
  nat_eq, string_eq, bytes_eq,
}
use mathlib.Core.Option
use privex.Crypto.Hex.{Bytes}
use privex.Db.Rows.{ReceiptType}
use privex.Wire.{
  PqxdhInitWire, DeviceSyncWire, DecodedEnvelope, ReceiptRequestWire, DecodedText, FileFields,
  DecodedContent,
}
use privex.Envelope.Proto.{
  number, to_num, u8, ProtoText, ProtoFile, ProtoReceiptRequest, ProtoContent, ProtoPqxdh,
  ProtoDeviceSync, ProtoEnvelope, ProtoCodec,
}

abbrev empty_content : ProtoContent
empty_content = record {
  text = none;
  file = none;
  contact_hello = none;
  contact_accept = none;
  receipt = none;
  receipt_request = none;
}

abbrev proto_request : ReceiptRequestWire → ProtoReceiptRequest
proto_request r = record {
  token_id = some r.token_id;
  request_delivery = some r.request_delivery;
  request_read = some r.request_read;
}

abbrev type_name : ReceiptType → String
type_name ReceiptType.delivered = "delivered"
type_name ReceiptType.read = "read"

-- a request with an empty or absent token is none
request_of : Option Bytes → ProtoReceiptRequest → Option ReceiptRequestWire
request_of none r = none
request_of (some []) r = none
request_of (some (b ∷ bs)) r = some (record {
  token_id = b ∷ bs;
  request_delivery = or_else r.request_delivery false;
  request_read = or_else r.request_read false;
})

abbrev receipt_request_of : Option ProtoReceiptRequest → Option ReceiptRequestWire
receipt_request_of none = none
receipt_request_of (some r) = request_of r.token_id r

abbrev type_of : Option String → ReceiptType
type_of none = ReceiptType.delivered
type_of (some s) = if s == "read" then ReceiptType.read else ReceiptType.delivered

abbrev non_empty : Option Bytes → Option Bytes
non_empty none = none
non_empty (some []) = none
non_empty (some (b ∷ bs)) = some (b ∷ bs)

abbrev file_of : ProtoFile → FileFields
file_of f = record {
  filename_enc = u8 f.filename_encrypted;
  mime_enc = u8 f.mime_type_encrypted;
  total_size = to_num f.total_size;
  sha256 = u8 f.sha256_plaintext;
  chunk_ids = or_else f.chunk_ids [];
  wrapped_cek = u8 f.wrapped_cek;
  eph_pub = u8 f.cek_eph_pub;
  thumbnail_enc = non_empty f.thumbnail_encrypted;
  sent_at = to_num f.sent_at;
}

abbrev pub nothing : DecodedContent
nothing = record {
  text = none;
  file = none;
  contact_hello = false;
  contact_accept = false;
  receipt = none;
  receipt_request = none;
}

-- text or file, with the request
visible : Option ProtoText → Option ProtoFile → Option ReceiptRequestWire → DecodedContent
visible (some t) file request = record nothing {
  text = some (record { body = or_else t.body ""; sent_at = to_num t.sent_at });
  receipt_request = request;
}
visible none (some f) request = record nothing {
  file = some (file_of f);
  receipt_request = request;
}
visible none none request = nothing

-- exactly one variant, in the order of the tests
unfoldable pub variant_of : ProtoContent → DecodedContent
unfolding visible request_of
variant_of c =
    if is_some c.contact_hello
    then record nothing { contact_hello = true }
    else if is_some c.contact_accept
    then record nothing { contact_accept = true }
    else elim c.receipt [
      | some r ↦ record nothing {
        receipt = some (record { token_id = u8 r.token_id; receipt_type = type_of r.receipt_type });
      }
      | none ↦ visible c.text c.file (receipt_request_of c.receipt_request)
    ]

abbrev proto_pqxdh : PqxdhInitWire → ProtoPqxdh
proto_pqxdh p = record {
  alice_ik_pub = some p.alice_ik_pub;
  alice_ek_pub = some p.alice_ek_pub;
  kyber_ciphertext = some p.kyber_ciphertext;
  opk_used = some p.opk_used;
  opk_id = some p.opk_id;
}

abbrev pqxdh_of : ProtoPqxdh → PqxdhInitWire
pqxdh_of p = record {
  alice_ik_pub = u8 p.alice_ik_pub;
  alice_ek_pub = u8 p.alice_ek_pub;
  kyber_ciphertext = u8 p.kyber_ciphertext;
  opk_used = or_else p.opk_used false;
  opk_id = or_else p.opk_id 0;
}

-- a copy with an empty or absent target is none
sync_of : Option Bytes → ProtoDeviceSync → Option DeviceSyncWire
sync_of none s = none
sync_of (some []) s = none
sync_of (some (b ∷ bs)) s =
    some (record { to_device = b ∷ bs; from_device = u8 s.from_device; blob = u8 s.blob })

abbrev device_sync_of : Option ProtoDeviceSync → Option DeviceSyncWire
device_sync_of none = none
device_sync_of (some s) = sync_of s.to_device s

abbrev envelope_of : ProtoEnvelope → DecodedEnvelope
envelope_of e = record {
  header = u8 e.ratchet_header;
  ciphertext = u8 e.ratchet_ciphertext;
  pqxdh = Option.map pqxdh_of e.pqxdh;
  device_sync = device_sync_of e.device_sync;
}

abbrev pub text_content : String → ℕ → Option ReceiptRequestWire → ProtoContent
text_content body sent_at receipt = record empty_content {
  text = some (record { body = some body; sent_at = some (number sent_at) });
  receipt_request = Option.map proto_request receipt;
}

abbrev pub hello_content : ℕ → ProtoContent
hello_content sent_at = record empty_content {
  contact_hello = some (record { sent_at = some (number sent_at) });
}

abbrev pub accept_content : ℕ → ProtoContent
accept_content sent_at = record empty_content {
  contact_accept = some (record { sent_at = some (number sent_at) });
}

abbrev pub receipt_content : Bytes → ReceiptType → ProtoContent
receipt_content token_id type = record empty_content {
  receipt = some (record { token_id = some token_id; receipt_type = some (type_name type) });
}

abbrev pub file_content : FileFields → Option ReceiptRequestWire → ProtoContent
file_content f receipt = record empty_content {
  file = some (record {
    filename_encrypted = some f.filename_enc;
    mime_type_encrypted = some f.mime_enc;
    total_size = some (number f.total_size);
    sha256_plaintext = some f.sha256;
    chunk_ids = some f.chunk_ids;
    wrapped_cek = some f.wrapped_cek;
    cek_eph_pub = some f.eph_pub;
    thumbnail_encrypted = some (or_else f.thumbnail_enc []);
    sent_at = some (number f.sent_at);
  });
  receipt_request = Option.map proto_request receipt;
}

abbrev pub proto_envelope : Bytes → Bytes → Option PqxdhInitWire → ProtoEnvelope
proto_envelope header ciphertext pqxdh = record {
  ratchet_header = some header;
  ratchet_ciphertext = some ciphertext;
  pqxdh = Option.map proto_pqxdh pqxdh;
  device_sync = none;
}

module _ (codec : ProtoCodec) where
  unfoldable pub encode_text : String → ℕ → Option ReceiptRequestWire → Bytes
  encode_text body sent_at receipt = codec.encode_content (text_content body sent_at receipt)

  unfoldable pub encode_contact_hello : ℕ → Bytes
  encode_contact_hello sent_at = codec.encode_content (hello_content sent_at)

  unfoldable pub encode_contact_accept : ℕ → Bytes
  encode_contact_accept sent_at = codec.encode_content (accept_content sent_at)

  unfoldable pub encode_receipt : Bytes → ReceiptType → Bytes
  encode_receipt token_id type = codec.encode_content (receipt_content token_id type)

  unfoldable pub encode_file : FileFields → Option ReceiptRequestWire → Bytes
  encode_file f receipt = codec.encode_content (file_content f receipt)

  unfoldable pub decode_content : Bytes → Option DecodedContent
  unfolding variant_of
  decode_content bytes = Option.map variant_of (codec.decode_content bytes)

  -- `none` if the bytes are no message, or one that is not a text
  unfoldable pub decode_text : Bytes → Option DecodedText
  decode_text bytes = elim (codec.decode_content bytes) [
    | none ↦ none
    | some c ↦
        Option.map
          (λ (t : ProtoText). record { body = or_else t.body ""; sent_at = to_num t.sent_at })
          c.text
  ]

  unfoldable pub encode_envelope : Bytes → Bytes → Option PqxdhInitWire → Bytes
  encode_envelope header ciphertext pqxdh =
      codec.encode_envelope (proto_envelope header ciphertext pqxdh)

  unfoldable pub encode_device_sync_envelope : DeviceSyncWire → Bytes
  encode_device_sync_envelope sync = codec.encode_envelope (record {
    ratchet_header = some [];
    ratchet_ciphertext = some [];
    pqxdh = none;
    device_sync = some (record {
      to_device = some sync.to_device;
      from_device = some sync.from_device;
      blob = some sync.blob;
    });
  })

  unfoldable pub decode_envelope : Bytes → Option DecodedEnvelope
  unfolding sync_of
  decode_envelope bytes = Option.map envelope_of (codec.decode_envelope bytes)
