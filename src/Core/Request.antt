-- ===== src/Core/Request.antt =====
-- `Request` (src/core/request.cc, request.h): what all requests share, and their time check.
use residue.Core.Configuration.{Configuration, has_flag}
use residue.Core.Configuration
use residue.Core.JsonDoc.{JsonDoc, get_unsigned, error_text}
use residue.Core.JsonDoc
use residue.Prelude.{
  ℕ, ◌+◌, ◌-◌, ◌≤◌, ◌≡◌, ◌≢◌, ◌↔◌, ◌⊎◌, Bool, true, false, not, Option, arith, leb, ◌==◌,
  if◌then◌else◌, Text, codes,
}

pub data StatusCode : Type 0 where
  status_ok bad_request : StatusCode

-- `client` is the id of the client that the pointer of the program points to in the registry.
pub record Request : Type 0 where
  pub json_doc : JsonDoc
  pub is_valid : Bool
  pub client : Option Text
  pub error : Text
  pub status_code : StatusCode
  pub ip_addr : Text
  pub session_id : Text
  pub timestamp : ℕ
  pub date_received : ℕ

-- |a - b|
abbrev pub distance : ℕ → ℕ → ℕ
distance a b = (a - b) + (b - a)

-- `Request::validateTimestamp`.
unfoldable pub validate_timestamp : Configuration → Request → Bool
validate_timestamp conf r =
    if r.timestamp == 0
    then not (has_flag conf Configuration.Flag.requires_timestamp)
    else leb (distance r.date_received r.timestamp) conf.timestamp_validity

-- `Request::deserialize`. The document comes parsed; `validate` is the `validateTimestamp` of the
-- request's class.
unfoldable pub deserialize : (Request → Bool) → JsonDoc → Request → Request
deserialize validate doc r =
    let parsed = record r { json_doc = doc; is_valid = JsonDoc.is_valid doc } in
    if JsonDoc.is_valid doc
    then (let stamped = record parsed { timestamp = get_unsigned doc (codes "_t") 0 } in
        record stamped { is_valid = validate stamped })
    else record parsed { error = error_text doc }

-- A request of the base class is valid exactly if its text parses and its time stamp is within
-- the validity, or is missing (or 0) where the server does not require one.
pub deserialize-validate_timestamp :
    (conf : Configuration) (doc : JsonDoc) (r : Request)
    → ((deserialize (validate_timestamp conf) doc r).is_valid ≡ true) ↔ (
        (JsonDoc.is_valid doc ≡ true)
        × (((get_unsigned doc (codes "_t") 0 ≡ 0)
              × (has_flag conf Configuration.Flag.requires_timestamp ≡ false))
            ⊎ ((get_unsigned doc (codes "_t") 0 ≢ 0)
                × (r.date_received ≤ get_unsigned doc (codes "_t") 0 + conf.timestamp_validity)
                × (get_unsigned doc (codes "_t") 0 ≤ r.date_received + conf.timestamp_validity))))
unfolding deserialize validate_timestamp
deserialize-validate_timestamp conf doc r = ground arith
