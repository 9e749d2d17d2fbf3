-- ===== src/Examples/Settings.antt =====
-- The theorems on the configuration, the administrator's requests and addresses, at work.
use residue.Core.Configuration.Blacklist.Complete.{IsBlacklist}
use residue.Core.Configuration.ManagedClients.{ClientNode, Host, load_managed_clients}
use residue.Core.Configuration.ManagedClients.Sound.{IsSound, load_managed_clients-IsSound}
use residue.Core.Configuration.{
  Configuration, six_hours, weekly, is_managed_logger, value_or, get_rotation_frequency,
}
use residue.Core.Configuration.Rotation.{load_rotation, export_rotation}
use residue.Core.Configuration.Rotation.Reload.{kept, load-export}
use residue.Core.JsonDoc
use residue.Core.JsonDoc.{JsonDoc, get_unsigned}
use residue.Core.Printer.{dump_str}
use residue.Core.Printer.Escapes.{all_text, read_json, read_json-dump_str}
use residue.Core.Request.{status_ok}
use residue.Admin.Request.{AdminRequest, cast, stats, unknown, is_complete, deserialize}
use residue.Admin.Command.{runs, responds, reply}
use residue.Admin.Command.Replies.{reply-deserialize}
use residue.Net.Url.{parse}
use residue.Net.Url.Parts.{address, parse-address}
use residue.Utils.Strings.{is_alpha_numeric}
use residue.Prelude.Map
use residue.Examples.Data.{conf, base}
use residue.Prelude.{
  none, ◌≡◌, refl, ◌⊎◌, true, false, some, List, [], ◌∷◌, ◌++◌, arith, if◌then◌else◌, Text, codes,
  text_eq,
}

conf-IsBlacklist : IsBlacklist conf
unfolding is_managed_logger Map.find text_eq
conf-IsBlacklist = record { unique = (refl, tt); unmanaged = (refl, tt); bounded = omega arith }

conf-IsSound : IsSound conf
unfolding Map.find text_eq is_alpha_numeric
conf-IsSound = record {
  unique = (refl, tt);
  legal = (refl, tt);
  sizes = tt;
  defaults = tt;
  users = tt;
}

abbrev host : Host
host = record {
  resolve = λ s. s;
  file_exists = λ s. true;
  contents = λ s. some (codes "public");
  has_user = λ s. true;
}

abbrev node : ClientNode
node = record {
  client_id = codes "carol";
  public_key = codes "carol.pem";
  key_size = 256;
  loggers = some (codes "default" ∷ codes "other" ∷ []);
  default_logger = codes "default";
  user = codes "carol";
}

load_managed_clients-IsSound_example :
    IsSound (load_managed_clients host false (node ∷ node ∷ []) conf).0
load_managed_clients-IsSound_example =
    load_managed_clients-IsSound host false (node ∷ node ∷ []) conf conf-IsSound

read_json-dump_str_example :
    read_json (dump_str (b'a' ∷ b'"' ∷ 10 ∷ []) ++ codes ",")
    ≡ (if all_text (b'a' ∷ b'"' ∷ 10 ∷ []) then some (b'a' ∷ b'"' ∷ 10 ∷ [], codes ",") else none)
read_json-dump_str_example = read_json-dump_str (b'a' ∷ b'"' ∷ 10 ∷ []) (codes ",") (omega arith)

abbrev doc : JsonDoc
doc = record {
  status = JsonDoc.parse_ok;
  is_array = false;
  lookup = λ key.
      if text_eq key (codes "_t")
      then JsonDoc.number 120 120
      else if text_eq key (codes "type")
      then JsonDoc.number 7 7
      else JsonDoc.other;
  items = [];
}

abbrev pub request : AdminRequest
request = record {
  base = base;
  kind = unknown;
  client_id = [];
  logger_id = [];
  logging_levels = [];
}

still_ok : (deserialize (λ d. []) doc request).base.status_code ≡ status_ok
unfolding deserialize residue.Core.Request.deserialize
    residue.Admin.Request.validate_admin_timestamp get_unsigned text_eq
still_ok = refl

reply-deserialize_example :
    let r' = deserialize (λ d. []) doc request in
    ((r'.base.is_valid ≡ true) × (cmd : Text) × (params : List Text) × (reply r' ≡ runs cmd params))
    ⊎ ((r'.base.is_valid ≡ false) × (reply r' ≡ responds (codes "Invalid admin request")))
reply-deserialize_example = reply-deserialize (λ d. []) doc request still_ok

parse-address_example :
    parse (address (codes "https") (codes "host") (codes "8080") (codes "a/b") (codes "c=d"))
    ≡ record {
      protocol = codes "https";
      host = codes "host";
      port = codes "8080";
      path = codes "/a/b";
      query = codes "c=d";
    }
parse-address_example =
    parse-address (codes "https") (codes "host") (codes "8080") (codes "a/b") (codes "c=d")
      (omega arith) (omega arith) (omega arith) (omega arith) (omega arith) (omega arith)

abbrev rotating : Configuration
rotating = record conf {
  rotation_frequencies = (codes "app", weekly) ∷ (codes "web", six_hours) ∷ [];
}

nowhere : Map.find conf.rotation_frequencies (codes "web") ≡ none
unfolding Map.find
nowhere = refl

load-export_example :
    get_rotation_frequency
      (load_rotation (codes "web") (value_or (export_rotation rotating (codes "web")) []) conf)
      (codes "web")
    ≡ kept (get_rotation_frequency rotating (codes "web"))
load-export_example = load-export rotating conf (codes "web") nowhere
