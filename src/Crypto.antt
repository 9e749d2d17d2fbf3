-- ===== src/Crypto.antt =====
-- src/crypto: the wrappers around the crypto libraries, which are parameters. A build uses mine or
-- ripe (`RESIDUE_USE_MINE`); a library call that throws is `none`.
use residue.Prelude.{Bool, Option, none, some, [], if◌then◌else◌, Text, codes, is_empty}

pub record Library : Type 0 where
  pub use_mine : Bool
  pub base64_decode : Text → Option Text
  pub base64_encode : Text → Option Text
  pub base16_encode : Text → Option Text
  -- The text, the key and the initialisation vector.
  pub aes_decrypt : Text → Text → Text → Option Text
  pub aes_encrypt : Text → Text → Text
  -- The text and the key.
  pub rsa_decrypt : Text → Text → Option Text
  pub rsa_encrypt : Text → Text → Option Text
  pub inflate : Text → Option Text

abbrev or_message : Option Text → Text → Text
or_message none m = m
or_message (some t) m = t

module _ (lib : Library) where
  -- `Base64::decode`.
  unfoldable pub base64_decode : Text → Option Text
  base64_decode encoded =
      if lib.use_mine
      then some (or_message (lib.base64_decode encoded) (codes "ERROR B64 DECODE"))
      else if is_empty encoded
      then some (codes "ERROR EMPTY B64 DECODE")
      else lib.base64_decode encoded

  -- `Base64::encode`.
  unfoldable pub base64_encode : Text → Option Text
  base64_encode raw =
      if lib.use_mine
      then some (or_message (lib.base64_encode raw) (codes "ERROR B64 DECODE"))
      else if is_empty raw
      then some (codes "ERROR EMPTY B64 ENCODE")
      else lib.base64_encode raw

  -- `Base16::encode`.
  unfoldable pub base16_encode : Text → Option Text
  base16_encode raw =
      if lib.use_mine
      then some (or_message (lib.base16_encode raw) (codes "ERROR B16 DECODE"))
      else lib.base16_encode raw

  -- `AES::decrypt`.
  unfoldable pub aes_decrypt : Text → Text → Text → Option Text
  aes_decrypt raw key iv =
      if lib.use_mine
      then some (or_message (lib.aes_decrypt raw key iv) (codes "ERROR AES DECRYPT"))
      else lib.aes_decrypt raw key iv

  -- `RSA::decrypt`, at the text and the private key.
  unfoldable pub rsa_decrypt : Text → Text → Option Text
  rsa_decrypt input key =
      if lib.use_mine
      then some (or_message (lib.rsa_decrypt input key) [])
      else lib.rsa_decrypt input key

  -- `RSA::encrypt`, at the text and the public key.
  unfoldable pub rsa_encrypt : Text → Text → Option Text
  rsa_encrypt input key =
      if lib.use_mine
      then some (or_message (lib.rsa_encrypt input key) [])
      else lib.rsa_encrypt input key

  -- `ZLib::decompress`.
  unfoldable pub decompress : Text → Option Text
  decompress input = lib.inflate input
