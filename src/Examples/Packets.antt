-- ===== src/Examples/Packets.antt =====
-- The theorems on packets and requests, at work.
use residue.Core.Configuration.{has_flag}
use residue.Core.Configuration.Flag
use residue.Core.JsonDoc
use residue.Core.JsonDoc.{JsonDoc, get_unsigned}
use residue.Core.Request.{validate_timestamp, deserialize, bad_request, status_ok}
use residue.Core.Registry.{find_client}
use residue.Core.RequestHandler.{decrypt_request, find_first_of}
use residue.Core.RequestHandler.Decrypt.{packet, answer, decrypt_request-packet}
use residue.Core.RequestHandler.Handle.{RequestClass, Options, rsa_text, try_client, handle}
use residue.Core.RequestHandler.Handle.Plain.{no_plain_request}
use residue.Connect.Request.{ConnectionRequest, unknown, request_class}
use residue.Examples.Data.{registry, conf, library, raw, connection_request}
use residue.Prelude.{
  ◌+◌, ◌≤◌, ◌≡◌, refl, ◌≢◌, ◌↔◌, ◌⊎◌, true, false, none, some, [], ◌∷◌, arith, if◌then◌else◌,
  replicate, Text, codes, text_eq,
}

abbrev iv : Text
iv = replicate 32 b'0'

abbrev sealed : Text
sealed = codes "bob-old-keyhello"

decrypt_request-packet_example :
    decrypt_request library registry (packet iv (codes "bob") sealed) bad_request [] false
    ≡ answer library registry iv (codes "bob") sealed (find_client registry (codes "bob"))
decrypt_request-packet_example =
    decrypt_request-packet library registry iv (codes "bob") sealed bad_request refl (omega arith)
      (omega arith)

abbrev options : Options
options = record {
  default_status = status_ok;
  try_server_rsa_key = true;
  try_server_aes_key = false;
  decompress = false;
}

-- The reader of a CONNECT request with a client's id and nothing else.
abbrev parse : Text → JsonDoc
parse s = record {
  status = elim s [ [] ↦ JsonDoc.unexpected_character | x ∷ xs ↦ JsonDoc.parse_ok ];
  is_array = false;
  lookup = λ key.
      if text_eq key (codes "type")
      then JsonDoc.number 1 1
      else if text_eq key (codes "client_id")
      then JsonDoc.string (codes "bob")
      else JsonDoc.other;
  items = [];
}

abbrev blank : ConnectionRequest
blank = connection_request unknown []

abbrev cls : RequestClass ConnectionRequest
cls = request_class library conf parse

abbrev bobs : Text
bobs = packet iv (codes "bob") sealed

opened_valid :
    (cls.base (handle cls library conf registry (raw bobs) options blank)).is_valid ≡ true
unfolding handle residue.Connect.Request.deserialize deserialize decrypt_request find_first_of
    residue.Prelude.Map.find text_eq residue.Core.RequestHandler.before residue.Crypto.aes_decrypt
    residue.Core.RequestHandler.behind validate_timestamp get_unsigned has_flag
    residue.Connect.Request.cast residue.Crypto.base64_decode JsonDoc.get_string
opened_valid = refl

secure : has_flag conf Flag.allow_insecure_connection ≡ false
unfolding has_flag
secure = refl

opened_ok :
    (cls.base (handle cls library conf registry (raw bobs) options blank)).status_code ≡ status_ok
unfolding handle residue.Connect.Request.deserialize deserialize decrypt_request find_first_of
    residue.Prelude.Map.find text_eq residue.Core.RequestHandler.before residue.Crypto.aes_decrypt
    residue.Core.RequestHandler.behind validate_timestamp get_unsigned has_flag
    residue.Connect.Request.cast residue.Crypto.base64_decode JsonDoc.get_string
opened_ok = refl

no_plain_request_example :
    ((cls.base (handle cls library conf registry (raw bobs) options blank)).client ≢ none)
    ⊎ ((text : Text) × (rsa_text cls library conf registry bobs ≡ some text)
        × (handle cls library conf registry (raw bobs) options blank
            ≡ cls.deserialize text (try_client cls library conf registry (raw bobs) options blank)))
no_plain_request_example =
    no_plain_request cls library conf registry (raw bobs) options blank (λ q r. refl) secure refl
      refl opened_valid opened_ok
