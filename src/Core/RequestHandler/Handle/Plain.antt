-- ===== src/Core/RequestHandler/Handle/Plain.antt =====
-- `RequestHandler::handle<T>` (src/core/request-handler.h) on requests that no key of a client opened.
use residue.Core.Configuration.{Configuration, has_flag}
use residue.Core.Configuration.Flag
use residue.Core.Registry.{Registry}
use residue.Core.Request.{Request, status_ok, bad_request}
use residue.Core.RequestHandler.Handle.{
  RawRequest, RequestClass, Options, try_client, rsa_text, refuse_plain, settle, handle,
}
use residue.Crypto.{Library}
use residue.Prelude.{
  ◌≡◌, ◌≢◌, ◌⊎◌, inl, inr, true, false, none, some, arith, Bool-cases, Option-cases, Text, codes,
}

-- `with_base` stores the part that `base` reads.
abbrev pub IsLawful : {R : Type 0} → RequestClass R → Type 0
IsLawful {R} cls = (q : Request) (r : R) → cls.base (cls.with_base q r) ≡ q

module _ {R : Type 0} (cls : RequestClass R) (lib : Library) (conf : Configuration)
    (registry : Registry) where
  abbrev plain_error : Request → Request
  plain_error q = record q {
    error = codes "Plain connections not allowed by the server";
    status_code = bad_request;
  }

  refused :
      (r : R)
      → IsLawful cls
      → (options : Options) → has_flag conf Flag.allow_insecure_connection ≡ false
      → options.try_server_rsa_key ≡ true
      → let h = refuse_plain cls lib conf registry true false options r in
        (cls.base h).status_code ≡ status_ok → (cls.base h).client ≢ none
  unfolding refuse_plain
  refused r lawful options secure try_rsa_key ok e = elim (Option-cases (cls.base r).client) [
    | inl no_client ↦ ground (arith, lawful (plain_error (cls.base r)) r)
    | inr (c, client) ↦ ground arith
  ]

  settled :
      (raw : RawRequest) (options : Options) (r : R)
      → IsLawful cls
      → has_flag conf Flag.allow_insecure_connection ≡ false
      → options.try_server_rsa_key ≡ true
      → options.try_server_aes_key ≡ false
      → let h = settle cls lib conf registry raw options r in
        (cls.base h).is_valid ≡ true
        → (cls.base h).status_code ≡ status_ok
        → ((cls.base h).client ≢ none)
          ⊎ ((text : Text) × (rsa_text cls lib conf registry raw.content ≡ some text)
              × (h ≡ cls.deserialize text r))
  unfolding settle
  settled raw options r lawful secure try_rsa_key no_aes valid ok =
      elim (Bool-cases (cls.base r).is_valid) [
        | inl readable ↦
            inl (λ e. refused r lawful options secure try_rsa_key (ground arith) (ground arith))
        | inr unreadable ↦ elim (Option-cases (rsa_text cls lib conf registry raw.content)) [
          | inl no_text ↦ absurd (ground arith)
          | inr (text, opened) ↦ inr (text, opened, ground arith)
        ]
      ]

  -- Without the flag for insecure connections, where the server's RSA key is tried and its AES key
  -- is not, a valid request of status OK names a client whose key or id the packet had, or is what
  -- the server's RSA key made of the packet.
  pub no_plain_request :
      (raw : RawRequest) (options : Options) (r : R)
      → IsLawful cls
      → has_flag conf Flag.allow_insecure_connection ≡ false
      → options.try_server_rsa_key ≡ true
      → options.try_server_aes_key ≡ false
      → (cls.base (handle cls lib conf registry raw options r)).is_valid ≡ true
      → (cls.base (handle cls lib conf registry raw options r)).status_code ≡ status_ok
      → ((cls.base (handle cls lib conf registry raw options r)).client ≢ none)
        ⊎ ((text : Text) × (rsa_text cls lib conf registry raw.content ≡ some text)
            × (handle cls lib conf registry raw options r
                ≡ cls.deserialize text (try_client cls lib conf registry raw options r)))
  unfolding handle
  no_plain_request raw options r lawful secure try_rsa_key no_aes =
      settled raw options (try_client cls lib conf registry raw options r) lawful secure try_rsa_key
        no_aes
