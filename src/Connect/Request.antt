-- ===== src/Connect/Request.antt =====
-- `ConnectionRequest` (src/connect/connection-request.cc, connection-request.h).
use residue.Core.Configuration.{Configuration}
use residue.Core.JsonDoc.{JsonDoc, get_string, get_unsigned}
use residue.Core.Request.{Request, validate_timestamp}
use residue.Core.Request
use residue.Core.RequestHandler.Handle.{RequestClass}
use residue.Core.RequestHandler.{or_text}
use residue.Crypto.{Library, base64_decode}
use residue.Prelude.{
  ℕ, ◌%◌, ◌^◌, Bool, true, false, not, ◌&&◌, ◌||◌, [], ◌==◌, if◌then◌else◌, Text, codes, is_empty,
}

-- `ConnectionRequest::Type`; any other number is `invalid`.
pub data Kind : Type 0 where
  unknown connect acknowledge touch invalid : Kind

pub record ConnectionRequest : Type 0 where
  pub base : Request
  pub client_id : Text
  pub rsa_public_key : Text
  pub key_size : ℕ
  pub kind : Kind

-- `static_cast<Type>`: the enumeration is an `unsigned short`.
unfoldable pub cast : ℕ → Kind
cast n =
    let t = n % 2 ^ 16 in
    if t == 0
    then unknown
    else if t == 1
    then connect
    else if t == 2
    then acknowledge
    else if t == 3
    then touch
    else invalid

abbrev pub is_connect : Kind → Bool
is_connect k = elim k [ connect ↦ true | _ ↦ false ]

abbrev pub is_subsequent : Kind → Bool
is_subsequent k = elim k [ acknowledge ↦ true | touch ↦ true | _ ↦ false ]

abbrev pub is_key_size : ℕ → Bool
is_key_size n = n == 128 || n == 192 || n == 256

module _ (lib : Library) (conf : Configuration) where
  -- The fields that are read where the base class accepts the request. The decoder of ripe, which
  -- skips what is not base 64, does not throw.
  unfoldable pub read_fields : ConnectionRequest → ConnectionRequest
  read_fields r =
      let doc = r.base.json_doc in
      let key_size = get_unsigned doc (codes "key_size") 0 in
      let read = record r {
        client_id = get_string doc (codes "client_id") [];
        rsa_public_key =
            or_text (base64_decode lib (get_string doc (codes "rsa_public_key") [])) [];
        kind = cast (get_unsigned doc (codes "type") 0);
      } in
      if key_size == 0 || is_key_size key_size
      then record read { key_size = key_size }
      else record read { base = record (r.base) { is_valid = false } }

  unfoldable pub is_consistent : ConnectionRequest → Bool
  is_consistent r =
      (is_connect r.kind && (not (is_empty r.rsa_public_key) || not (is_empty r.client_id)))
      || (is_subsequent r.kind && not (is_empty r.client_id))

  -- `deserialize`, of text that is parsed already.
  unfoldable pub deserialize : JsonDoc → ConnectionRequest → ConnectionRequest
  unfolding read_fields is_consistent
  deserialize doc r =
      let r1 = record r { base = Request.deserialize (validate_timestamp conf) doc r.base } in
      let r2 = if r1.base.is_valid then read_fields r1 else r1 in
      record r2 { base = record (r2.base) { is_valid = r2.base.is_valid && is_consistent r2 } }

  -- The class as `RequestHandler::handle` uses it; `parse` is the JSON library's.
  abbrev pub request_class : (Text → JsonDoc) → RequestClass ConnectionRequest
  request_class parse = record {
    base = λ r. r.base;
    with_base = λ b r. record r { base = b };
    deserialize = λ text r. deserialize (parse text) r;
  }
