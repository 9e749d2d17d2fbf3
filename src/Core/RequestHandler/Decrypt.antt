-- ===== src/Core/RequestHandler/Decrypt.antt =====
-- `RequestHandler::decryptRequest` (src/core/request-handler.cc) on a packet "iv:client id:data".
use residue.Core.Client.{Client}
use residue.Core.Registry.{Registry, find_client}
use residue.Core.Request.{StatusCode, status_ok, bad_request}
use residue.Core.RequestHandler.{
  DecryptedRequest, find_first_of, before, behind, decrypt_request, decrypt_body, decrypt_payload,
  or_else, or_text, is_none, has_iv,
}
use residue.Crypto.{Library, aes_decrypt}
use residue.Prelude.{
  ℕ, suc, ◌≡◌, refl, sym, ap, ◌∙◌, ◌≢◌, true, false, Option, none, some, List, [], ◌∷◌, ◌++◌, arith,
  if◌then◌else◌, length, take, drop, All, length-append, Text, codes, is_empty,
}

abbrev pub Without : ℕ → Text → Type 0
Without c s = All (λ x. x ≢ c) s

pub find_first_of-append :
    (c : ℕ) (s t : Text) → Without c s → find_first_of c (s ++ c ∷ t) ≡ some (length s)
unfolding find_first_of
find_first_of-append c [] t h = ground arith
find_first_of-append c (x ∷ s) t h = ground (arith, find_first_of-append c s t h.1)

pub take-append {ℓ} : {A : Type ℓ} (s t : List A) → take (length s) (s ++ t) ≡ s
take-append [] t = refl
take-append (x ∷ s) t = ap (◌∷◌ x) (take-append s t)

pub drop-append {ℓ} : {A : Type ℓ} (s t : List A) (x : A) → drop (suc (length s)) (s ++ x ∷ t) ≡ t
drop-append [] t x = refl
drop-append (y ∷ s) t x = drop-append s t x

-- The packet of a client.
abbrev pub packet : Text → Text → Text → Text
packet iv client_id payload = iv ++ b':' ∷ (client_id ++ b':' ∷ payload)

module _ (lib : Library) (registry : Registry) where
  -- A client's text is looked for under its current key, then under its backup key, if it has one.
  abbrev pub opened : Text → Text → Client → Option Text
  opened iv payload c =
      or_else (aes_decrypt lib payload c.key iv)
        (if is_empty c.backup_key then none else aes_decrypt lib payload c.backup_key iv)

  -- The answer where the id leads to that client, or to none.
  abbrev pub answer : Text → Text → Text → Option Client → DecryptedRequest
  answer iv client_id payload none = record {
    client = none;
    plain_request_str = client_id ++ b':' ∷ payload;
    status_code = bad_request;
    error_text = codes "Client not connected yet";
  }
  answer iv client_id payload (some c) = record {
    client = some c.id;
    plain_request_str = or_text (opened iv payload c) (client_id ++ b':' ∷ payload);
    status_code = status_ok;
    error_text = [];
  }

  decrypt_body_lem :
      (iv client_id payload : Text) (o : Option Client)
      → Without b':' client_id
      → find_client registry client_id ≡ o
      → decrypt_body lib registry [] false iv (client_id ++ b':' ∷ payload)
        ≡ answer iv client_id payload o
  unfolding decrypt_body before behind
  decrypt_body_lem iv client_id payload o no_colon found =
      let at = find_first_of-append b':' client_id payload no_colon in
      rw (at, take-append client_id (b':' ∷ payload), drop-append client_id payload b':', found)
        (last o)
    where
      last :
          (o : Option Client)
          → (if is_none o
              then record {
                client = none;
                plain_request_str = client_id ++ b':' ∷ payload;
                status_code = bad_request;
                error_text = codes "Client not connected yet";
              }
              else decrypt_payload lib [] iv (client_id ++ b':' ∷ payload) payload o)
            ≡ answer iv client_id payload o
      last none = refl
      last (some c) = refl

  packet-has_iv :
      (iv client_id payload : Text)
      → length iv ≡ 32
      → Without b':' iv
      → has_iv (packet iv client_id payload) ≡ true
  packet-has_iv iv client_id payload size no_colon =
      rw (find_first_of-append b':' iv (client_id ++ b':' ∷ payload) no_colon) (
        ground (
          arith,
          size,
          length-append iv (b':' ∷ (client_id ++ b':' ∷ payload)),
          length-append client_id (b':' ∷ payload),
        ))

  -- A packet of 32 bytes, a client id and data, separated by colons, is taken apart as it was put
  -- together: an unknown client is refused, and a known one is named beside the text that its keys
  -- open, or beside "client id:data" where neither opens it.
  pub decrypt_request-packet :
      (iv client_id payload : Text) (default_status : StatusCode)
      → length iv ≡ 32
      → Without b':' iv
      → Without b':' client_id
      → decrypt_request lib registry (packet iv client_id payload) default_status [] false
        ≡ answer iv client_id payload (find_client registry client_id)
  unfolding decrypt_request
  decrypt_request-packet iv client_id payload default_status size no_colon no_colon' =
      let body = client_id ++ b':' ∷ payload in
      rw
        (
          packet-has_iv iv client_id payload size no_colon,
          ap (λ n. take n (packet iv client_id payload)) (sym size) ∙ take-append iv (b':' ∷ body),
          ap (λ n. drop (suc n) (packet iv client_id payload)) (sym size)
              ∙ drop-append iv body b':',
        )
        (decrypt_body_lem iv client_id payload (find_client registry client_id) no_colon' refl)
