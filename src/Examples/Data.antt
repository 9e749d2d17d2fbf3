-- ===== src/Examples/Data.antt =====
-- A small server: a managed and an unmanaged client, and what they send.
use residue.Core.Client.{Client}
use residue.Core.Configuration.{Configuration}
use residue.Core.JsonDoc.{JsonDoc, other, parse_ok}
use residue.Core.Registry.{Registry, initial, find_client}
use residue.Core.Registry.Clients.{IsWellFormed}
use residue.Prelude.Map
use residue.Core.Request.{Request, status_ok}
use residue.Core.RequestHandler.Handle.{RawRequest}
use residue.Crypto.{Library}
use residue.Connect.Outcome.{Env, Session}
use residue.Connect.Request.{ConnectionRequest, Kind}
use residue.Logging.LogRequest.{LogRequest, Levels}
use residue.Prelude.{
  ◌+◌, ◌≡◌, refl, true, false, Option, none, some, [], ◌∷◌, ◌++◌, ◌==◌, if◌then◌else◌, Text, codes,
  text_eq,
}

abbrev pub alice : Client
alice = record {
  id = codes "alice";
  date_created = 100;
  age = 60;
  rsa_public_key = codes "alice-public";
  key = codes "alice-key";
  key_size = 16;
  token = codes "alice-token";
  acknowledged = true;
  is_managed = true;
  backup_key = [];
}

abbrev pub bob : Client
bob = record alice {
  id = codes "bob";
  rsa_public_key = codes "bob-public";
  key = codes "bob-key";
  token = codes "bob-token";
  acknowledged = false;
  is_managed = false;
  backup_key = codes "bob-old-key";
}

abbrev pub registry : Registry
registry = record initial { clients = (codes "alice", alice) ∷ (codes "bob", bob) ∷ [] }

abbrev pub conf : Configuration
conf = record {
  flag = 1 + 16 + 64 + 256;
  logging_port = 8777;
  server_key = [];
  server_rsa_private_key = codes "server-private";
  default_key_size = 128;
  client_age = 600;
  non_acknowledged_client_age = 60;
  timestamp_validity = 30;
  max_items_in_bulk = 2;
  configurations = (codes "default", codes "default.conf") ∷ [];
  blacklist = codes "muted" ∷ [];
  managed_clients_keys = (codes "alice", (codes "alice.pem", codes "alice-public")) ∷ [];
  remote_managed_clients = [];
  managed_clients_loggers = [];
  key_sizes = [];
  managed_client_default_logger = [];
  managed_logger_user_map = [];
  unmanaged_logger_user_map = [];
  rotation_frequencies = [];
}

abbrev pub env : Env
env = record {
  now = 130;
  random_id = λ n. (n + b'a') ∷ [];
  generate_key = λ n size. (n + b'0') ∷ codes "-key";
  unset = false;
}

abbrev pub session : Session
session = record { id = codes "session-1"; client = none }

abbrev pub no_doc : JsonDoc
no_doc = record { status = parse_ok; is_array = false; lookup = λ key. other; items = [] }

abbrev pub base : Request
base = record {
  json_doc = no_doc;
  is_valid = true;
  client = none;
  error = [];
  status_code = status_ok;
  ip_addr = codes "127.0.0.1";
  session_id = codes "session-1";
  timestamp = 128;
  date_received = 130;
}

abbrev pub connection_request : Kind → Text → ConnectionRequest
connection_request kind client_id = record {
  base = base;
  client_id = client_id;
  rsa_public_key = codes "carol-public";
  key_size = 128;
  kind = kind;
}

-- AES that writes the key before the text.
abbrev strip_prefix : Text → Text → Option Text
strip_prefix [] s = some s
strip_prefix (x ∷ xs) [] = none
strip_prefix (x ∷ xs) (y ∷ ys) = if x == y then strip_prefix xs ys else none

abbrev pub library : Library
library = record {
  use_mine = false;
  base64_decode = λ s. some s;
  base64_encode = λ s. some s;
  base16_encode = λ s. some s;
  aes_decrypt = λ text key iv. strip_prefix key text;
  aes_encrypt = λ text key. key ++ text;
  rsa_decrypt = λ text key. strip_prefix (codes "RSA") text;
  rsa_encrypt = λ text key. some (codes "RSA" ++ text);
  inflate = λ s. some s;
}

abbrev pub levels : Levels
levels = record { cast_from_int = λ n. n; unknown = 1010 }

abbrev pub log_request : Text → LogRequest
log_request logger_id = record {
  base = record base { client = some (codes "bob") };
  client_id = [];
  datetime = 130000;
  msg = codes "hello";
  logger_id = logger_id;
  filename = [];
  function = [];
  thread_id = [];
  application_name = [];
  level = 4;
  line_number = 7;
  verbose_level = 9;
}

abbrev pub raw : Text → RawRequest
raw content = record {
  content = content;
  ip = codes "127.0.0.1";
  date_received = 130;
  session = codes "session-1";
}

pub registry-IsWellFormed : IsWellFormed registry.clients
unfolding Map.find text_eq
registry-IsWellFormed = record { unique = (refl, (refl, tt)); keyed = (refl, (refl, tt)) }

pub bob_there : find_client registry (codes "bob") ≡ some bob
unfolding find_client Map.find text_eq
bob_there = refl
