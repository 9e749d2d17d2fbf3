-- ===== src/Core/RequestHandler.antt =====
-- `RequestHandler` (src/core/request-handler.cc, request-handler.h): from the text of a packet to a
-- request, by the clients' keys or the server's own.
pub mod Decrypt
pub mod Handle
use residue.Core.Client.{Client}
use residue.Core.Configuration.{Configuration, has_flag}
use residue.Core.Configuration.Flag
use residue.Core.Registry.{Registry, find_client}
use residue.Core.Request.{Request, StatusCode, status_ok, bad_request}
use residue.Crypto.{Library, base64_decode, base16_encode, aes_decrypt, rsa_decrypt, decompress}
use residue.Prelude.{
  ℕ, suc, Bool, true, false, not, ◌&&◌, Option, none, some, [], ◌∷◌, ltb, ◌==◌, if◌then◌else◌,
  length, take, drop, Text, codes, is_empty,
}

-- `find_first_of(c)`; `none` is `npos`.
unfoldable pub find_first_of : ℕ → Text → Option ℕ
find_first_of c [] = none
find_first_of c (x ∷ xs) =
    if x == c then some 0 else elim (find_first_of c xs) [ none ↦ none | some n ↦ some (suc n) ]

-- `substr(0, pos)` and `substr(pos + 1)`; at `npos` both are the whole text.
unfoldable pub before : Option ℕ → Text → Text
before none s = s
before (some n) s = take n s

unfoldable pub behind : Option ℕ → Text → Text
behind none s = s
behind (some n) s = drop (suc n) s

abbrev pub is_none {ℓ} : {A : Type ℓ} → Option A → Bool
is_none none = true
is_none (some a) = false

-- `DecryptedRequest`; `client` is the id of the client in the registry.
pub record DecryptedRequest : Type 0 where
  pub client : Option Text
  pub plain_request_str : Text
  pub status_code : StatusCode
  pub error_text : Text

-- `DecryptedResult`: what was decrypted, or `none` where that was not successful.
abbrev pub DecryptedResult : Type 0
DecryptedResult = Option Text

abbrev pub or_else : DecryptedResult → DecryptedResult → DecryptedResult
or_else (some t) other = some t
or_else none other = other

abbrev pub or_text : DecryptedResult → Text → Text
or_text none t = t
or_text (some s) t = s

-- The test that the text starts with an initialisation vector of 32 bytes and a colon.
abbrev pub has_iv : Text → Bool
has_iv s = ltb 33 (length s) && (elim (find_first_of b':' s) [ none ↦ false | some n ↦ n == 32 ])

abbrev pub id_of : Option Client → Option Text
id_of none = none
id_of (some client) = some client.id

module _ (lib : Library) where
  -- `decryptWithKey`.
  unfoldable pub decrypt_with_key : Text → Text → Text → DecryptedResult
  decrypt_with_key request_base64 iv key = aes_decrypt lib request_base64 key iv

  -- The client's key, and its backup key if it has one. There is a client wherever no key is given:
  -- a caller that ignores the client gives a key.
  unfoldable pub decrypt_with_client : Text → Text → Option Client → DecryptedResult
  unfolding decrypt_with_key
  decrypt_with_client request_base64 iv none = none
  decrypt_with_client request_base64 iv (some client) =
      or_else (decrypt_with_key request_base64 iv client.key) (
        if is_empty client.backup_key
        then none
        else decrypt_with_key request_base64 iv client.backup_key)

  -- The last part of `decryptRequest`, where the client is settled.
  unfoldable pub decrypt_payload : Text → Text → Text → Text → Option Client → DecryptedRequest
  unfolding decrypt_with_client
  decrypt_payload key iv body payload client = record {
    client = id_of client;
    plain_request_str =
        or_text
          (if is_empty key
            then decrypt_with_client payload iv client
            else decrypt_with_key payload iv key)
          body;
    status_code = status_ok;
    error_text = [];
  }

  -- The part of `decryptRequest` behind its first test: the text behind "iv:".
  unfoldable pub decrypt_body : Registry → Text → Bool → Text → Text → DecryptedRequest
  unfolding decrypt_payload find_client
  decrypt_body registry key ignore_client iv body =
      let pos = find_first_of b':' body in
      let client_id = before pos body in
      let payload = behind pos body in
      let client = find_client registry client_id in
      if ignore_client
      then decrypt_payload key iv body payload none
      else if is_none pos
      then record {
        client = none;
        plain_request_str = body;
        status_code = bad_request;
        error_text = codes "Malformed request. No client ID";
      }
      else if is_none client
      then record {
        client = none;
        plain_request_str = body;
        status_code = bad_request;
        error_text = codes "Client not connected yet";
      }
      else decrypt_payload key iv body payload client

  -- `decryptRequest`.
  unfoldable pub decrypt_request : Registry → Text → StatusCode → Text → Bool → DecryptedRequest
  unfolding decrypt_body
  decrypt_request registry request_str default_status key ignore_client =
      if has_iv request_str
      then decrypt_body registry key ignore_client (take 32 request_str) (drop 33 request_str)
      else record {
        client = none;
        plain_request_str = request_str;
        status_code = default_status;
        error_text = [];
      }
