-- ===== src/Connect/Outcome.antt =====
-- What a connection request leaves behind: `ConnectionResponse`
-- (src/connect/connection-response.cc, connection-response.h), the session and the registry.
use residue.Core.Client.{Client}
use residue.Core.Registry.{Registry}
use residue.Core.Request.{StatusCode, status_ok, bad_request}
use residue.Prelude.{ℕ, Bool, false, Option, [], Text}

-- The clock of one call, and the random values that it asks for: ids and keys of so many bits, told
-- apart by a number.
pub record Env : Type 0 where
  pub now : ℕ
  pub random_id : ℕ → Text
  pub generate_key : ℕ → ℕ → Text
  -- What the constructor of `Client` leaves in `m_isManaged`.
  pub unset : Bool

-- `Session`: the client that its pointer points to, by id.
pub record Session : Type 0 where
  pub id : Text
  pub client : Option Text

pub record Response : Type 0 where
  pub status : StatusCode
  pub error_text : Text
  pub has_configuration : Bool
  pub logging_port : ℕ
  pub key : Text
  pub client_id : Text
  pub client_token : Text
  pub client_age : ℕ
  pub client_date_created : ℕ
  pub is_acknowledged : Bool

abbrev pub error_response : StatusCode → Text → Response
error_response status text = record {
  status = status;
  error_text = text;
  has_configuration = false;
  logging_port = 0;
  key = [];
  client_id = [];
  client_token = [];
  client_age = 0;
  client_date_created = 0;
  is_acknowledged = false;
}

-- `ConnectionResponse(client, configuration)`; a logging port of 0 is not sent.
abbrev pub client_response : Client → Bool → ℕ → Response
client_response c has_configuration logging_port = record {
  status = status_ok;
  error_text = [];
  has_configuration = has_configuration;
  logging_port = logging_port;
  key = c.key;
  client_id = c.id;
  client_token = c.token;
  client_age = c.age;
  client_date_created = c.date_created;
  is_acknowledged = c.acknowledged;
}

-- What goes out on the session: a response in the clear, under an RSA public key or under an AES
-- key, a standard response, or nothing.
pub data Written : Type 0 where
  plain : Response → Written
  under_rsa under_aes : Response → Text → Written
  standard : StatusCode → Written
  nothing : Written

pub record Outcome : Type 0 where
  pub registry : Registry
  pub session : Session
  pub written : Written

abbrev pub respond_err : Registry → Session → Text → Outcome
respond_err registry session text = record {
  registry = registry;
  session = session;
  written = plain (error_response bad_request text);
}
