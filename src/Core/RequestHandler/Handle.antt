-- ===== src/Core/RequestHandler/Handle.antt =====
-- `RequestHandler::handle<T>` (src/core/request-handler.h): the whole way from a raw request to a
-- request of the class `T`, with the decompression and the two attempts with the server's keys.
pub mod Plain
use residue.Core.Configuration.{Configuration, has_flag}
use residue.Core.Configuration.Flag
use residue.Core.Registry.{Registry}
use residue.Core.Request.{Request, StatusCode, bad_request}
use residue.Core.RequestHandler.{DecryptedRequest, decrypt_request, is_none, or_text}
use residue.Crypto.{Library, base64_decode, base16_encode, rsa_decrypt, decompress}
use residue.Prelude.{
  ℕ, Bool, true, false, not, ◌&&◌, Option, none, some, [], if◌then◌else◌, Text, codes, is_empty,
}

-- `RawRequest`, with the id of its session.
pub record RawRequest : Type 0 where
  pub content : Text
  pub ip : Text
  pub date_received : ℕ
  pub session : Text

-- What the template asks of its parameter `T`: the part that is a `Request`, and the virtual
-- `deserialize`, which returns the validity that it leaves behind.
pub record RequestClass (R : Type 0) : Type 0 where
  pub base : R → Request
  pub with_base : Request → R → R
  pub deserialize : Text → R → R

-- The arguments with defaults.
pub record Options : Type 0 where
  pub default_status : StatusCode
  pub try_server_rsa_key : Bool
  pub try_server_aes_key : Bool
  pub decompress : Bool

abbrev pub then_try {ℓ} : {A B : Type ℓ} → Option A → (A → Option B) → Option B
then_try none f = none
then_try (some a) f = f a

module _ {R : Type 0} (cls : RequestClass R) (lib : Library) (conf : Configuration)
    (registry : Registry) where
  open cls use {base, with_base, deserialize}

  abbrev pub result : R → Bool
  result r = (base r).is_valid

  -- `decompress(decode(s))`; text that does not decompress stays as it is.
  unfoldable pub inflated : Bool → Text → Text
  inflated wanted s =
      if wanted then or_text (then_try (base64_decode lib s) (decompress lib)) s else s

  -- The client, the status and the error of a decryption go to the request.
  abbrev pub assign : DecryptedRequest → R → R
  assign dr r =
      with_base
        (record (base r) {
          client = dr.client;
          status_code = dr.status_code;
          error = dr.error_text;
        })
        r

  unfoldable pub received : RawRequest → R → R
  received raw r =
      with_base
        (record (base r) {
          ip_addr = raw.ip;
          date_received = raw.date_received;
          session_id = raw.session;
        })
        r

  -- The first attempt, with the keys of the client.
  unfoldable pub try_client : RawRequest → Options → R → R
  unfolding inflated received
  try_client raw options r =
      let dr = decrypt_request lib registry raw.content options.default_status [] false in
      deserialize (inflated options.decompress dr.plain_request_str) (received raw (assign dr r))

  -- What the server's RSA key makes of the packet.
  unfoldable pub rsa_text : Text → Option Text
  rsa_text content =
      if lib.use_mine
      then then_try (then_try (base64_decode lib content) (base16_encode lib))
          (λ input. rsa_decrypt lib input conf.server_rsa_private_key)
      else rsa_decrypt lib content conf.server_rsa_private_key

  abbrev pub with_rsa_text : Option Text → R → R × Bool
  with_rsa_text none r = (r, false)
  with_rsa_text (some text) r = let r' = deserialize text r in (r', result r')

  abbrev pub wants_rsa : Options → R → Bool
  wants_rsa options r =
      not (result r) && options.try_server_rsa_key && not (is_empty conf.server_rsa_private_key)

  -- The second attempt; the Boolean is `usedRsaKey`.
  unfoldable pub try_rsa : RawRequest → Options → R → R × Bool
  unfolding rsa_text
  try_rsa raw options r =
      if wants_rsa options r then with_rsa_text (rsa_text raw.content) r else (r, false)

  -- What is in `requestStr` behind the second attempt: Ripe decodes its argument in place.
  unfoldable pub left_over : Bool → Text → Text
  left_over attempted content =
      if attempted && not lib.use_mine then or_text (lib.base64_decode content) content else content

  -- The third attempt, at what is in `requestStr` by then; its outcome is not asked for.
  unfoldable pub try_aes : Text → Options → R → R
  try_aes content options r =
      if not (result r) && options.try_server_aes_key && not (is_empty conf.server_key)
      then (let dr =
            decrypt_request lib registry content options.default_status conf.server_key true in
          deserialize dr.plain_request_str (assign dr r))
      else r

  -- A request that came in plain text.
  unfoldable pub refuse_plain : Bool → Bool → Options → R → R
  refuse_plain valid used_rsa_key options r =
      if valid
        && not used_rsa_key
        && options.try_server_rsa_key
        && is_none (base r).client
        && not (has_flag conf Flag.allow_insecure_connection)
      then with_base
          (record (base r) {
            error = codes "Plain connections not allowed by the server";
            status_code = bad_request;
          })
          r
      else r

  -- What follows the first attempt.
  unfoldable pub settle : RawRequest → Options → R → R
  unfolding try_rsa left_over try_aes refuse_plain
  settle raw options r =
      let (r', used_rsa_key) = try_rsa raw options r in
      let content = left_over (wants_rsa options r) raw.content in
      refuse_plain (result r') used_rsa_key options (try_aes content options r')

  unfoldable pub handle : RawRequest → Options → R → R
  unfolding try_client settle
  handle raw options r = settle raw options (try_client raw options r)
