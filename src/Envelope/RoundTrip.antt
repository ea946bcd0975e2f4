-- ===== src/Envelope/RoundTrip.antt =====
-- Encoding followed by decoding (apps/web/src/services/envelope.ts).
use privex.Prelude.{
  ℕ, String, ◌≡◌, refl, true, Option, none, some, [], ◌∷◌, or_else, nat_eq, string_eq, bytes_eq,
}
use mathlib.Core.Option
use privex.Crypto.Hex.{Bytes}
use privex.Db.Rows.{ReceiptType}
use privex.Wire.{PqxdhInitWire, ReceiptRequestWire, FileFields}
use privex.Envelope.Proto.{ProtoCodec, ReadsBack, EnvelopeReadsBack, to_num}
use privex.Envelope.{
  text_content, file_content, hello_content, accept_content, receipt_content, proto_envelope,
  encode_text, encode_contact_hello, encode_contact_accept, encode_receipt, encode_file,
  encode_envelope, decode_content, decode_envelope, nothing, request_of, non_empty, proto_request,
  receipt_request_of, type_of, type_name,
}

-- the request that the other side reads: none if its token is empty
abbrev pub with_token : Bytes → ReceiptRequestWire → Option ReceiptRequestWire
with_token [] r = none
with_token (b ∷ bs) r = some r

abbrev pub as_request : Option ReceiptRequestWire → Option ReceiptRequestWire
as_request none = none
as_request (some r) = with_token r.token_id r

abbrev pub with_thumbnail : FileFields → FileFields
with_thumbnail f = record f { thumbnail_enc = non_empty f.thumbnail_enc }

request_of-proto_request :
    (t : Bytes) (r : ReceiptRequestWire)
    → r.token_id ≡ t
    → request_of (some t) (proto_request r) ≡ with_token t r
unfolding request_of
request_of-proto_request [] r e = refl
request_of-proto_request (b ∷ bs) r e = rw (← e) refl

receipt_request_lem :
    (r : Option ReceiptRequestWire) → receipt_request_of (Option.map proto_request r) ≡ as_request r
receipt_request_lem none = refl
receipt_request_lem (some r) = request_of-proto_request r.token_id r refl

non_empty-or_else : (t : Option Bytes) → non_empty (some (or_else t [])) ≡ non_empty t
non_empty-or_else none = refl
non_empty-or_else (some []) = refl
non_empty-or_else (some (b ∷ bs)) = refl

type_of-type_name : (t : ReceiptType) → type_of (some (type_name t)) ≡ t
type_of-type_name ReceiptType.delivered = refl
type_of-type_name ReceiptType.read = refl

module _ (codec : ProtoCodec) where
  -- The other side decodes a text message to its body, its time and the receipt request, unless the
  -- request has an empty token, if the generated code reads the message back.
  pub decode_content-encode_text :
      (body : String) (sent_at : ℕ) (receipt : Option ReceiptRequestWire)
      → ReadsBack codec (text_content body sent_at receipt)
      → decode_content codec (encode_text codec body sent_at receipt)
        ≡ some (record nothing {
          text = some (record { body = body; sent_at = sent_at });
          receipt_request = as_request receipt;
        })
  unfolding decode_content encode_text to_num
  decode_content-encode_text body sent_at receipt r =
      rw r.back (rw receipt_request_lem (rw r.as_read_num refl))

  -- The other side decodes a file message to its fields and the receipt request, if the generated code
  -- reads the message back; an empty thumbnail is no thumbnail.
  pub decode_content-encode_file :
      (f : FileFields) (receipt : Option ReceiptRequestWire)
      → ReadsBack codec (file_content f receipt)
      → decode_content codec (encode_file codec f receipt)
        ≡ some (record nothing {
          file = some (with_thumbnail f);
          receipt_request = as_request receipt;
        })
  unfolding decode_content encode_file to_num
  decode_content-encode_file f receipt r =
      rw r.back
        (rw receipt_request_lem (rw r.as_read_num (rw r.as_read_num (rw non_empty-or_else refl))))

  -- A request, an accept and a receipt are decoded as what they are, whatever they carry, if the
  -- generated code reads them back.
  pub decode_content-control :
      (sent_at : ℕ) (token_id : Bytes) (type : ReceiptType)
      → ReadsBack codec (hello_content sent_at)
      → ReadsBack codec (accept_content sent_at)
      → ReadsBack codec (receipt_content token_id type)
      → (decode_content codec (encode_contact_hello codec sent_at)
          ≡ some (record nothing { contact_hello = true }))
        × (decode_content codec (encode_contact_accept codec sent_at)
            ≡ some (record nothing { contact_accept = true }))
        × (decode_content codec (encode_receipt codec token_id type)
            ≡ some (record nothing {
              receipt = some (record { token_id = token_id; receipt_type = type });
            }))
  unfolding decode_content encode_contact_hello encode_contact_accept encode_receipt
  decode_content-control sent_at token_id type h a r =
      (rw h.back refl, rw a.back refl, rw r.back (rw type_of-type_name refl))

  -- An envelope with a handshake, or without one, is decoded as it was encoded, if the generated code
  -- reads it back.
  pub decode_envelope-encode_envelope :
      (header ciphertext : Bytes) (pqxdh : Option PqxdhInitWire)
      → EnvelopeReadsBack codec (proto_envelope header ciphertext pqxdh)
      → decode_envelope codec (encode_envelope codec header ciphertext pqxdh)
        ≡ some
            (record { header = header; ciphertext = ciphertext; pqxdh = pqxdh; device_sync = none })
  unfolding decode_envelope encode_envelope
  decode_envelope-encode_envelope header ciphertext none r = rw r.envelope_back refl
  decode_envelope-encode_envelope header ciphertext (some p) r = rw r.envelope_back refl
