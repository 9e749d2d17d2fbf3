-- ===== src/Admin/Request.antt =====
-- `AdminRequest` (src/admin/admin-request.cc, admin-request.h).
pub mod Valid
use residue.Core.Configuration.{member}
use residue.Core.JsonDoc.{JsonDoc, get_string, get_unsigned}
use residue.Core.Request.{Request, distance}
use residue.Core.Request
use residue.Prelude.{
  ℕ, ◌+◌, ◌%◌, ◌^◌, Bool, true, false, not, ◌||◌, List, [], ◌∷◌, ◌++◌, leb, ◌==◌, if◌then◌else◌,
  Text, codes, is_empty,
}

-- `AdminRequest::Type`; any other number is `invalid`.
pub data Kind : Type 0 where
  unknown reload_config reset list_logging_files force_log_rotation stats list_clients invalid :
      Kind

pub record AdminRequest : Type 0 where
  pub base : Request
  pub kind : Kind
  pub client_id : Text
  pub logger_id : Text
  pub logging_levels : List Text

-- `static_cast<Type>`: the enumeration is an `unsigned short`.
unfoldable pub cast : ℕ → Kind
cast n =
    let t = n % 2 ^ 16 in
    if t == 0
    then unknown
    else if t == 1
    then reload_config
    else if t == 4
    then reset
    else if t == 5
    then list_logging_files
    else if t == 6
    then force_log_rotation
    else if t == 7
    then stats
    else if t == 8
    then list_clients
    else invalid

-- `AdminRequest::validateTimestamp`: the time stamp is a must.
unfoldable pub validate_admin_timestamp : Request → Bool
validate_admin_timestamp r =
    if not (r.timestamp == 0) then leb (distance r.date_received r.timestamp) 30 else false

-- The last line of `deserialize`, on the fields that are read.
unfoldable pub is_complete : AdminRequest → Bool
is_complete r = elim r.kind [
  | reload_config ↦ true
  | reset ↦ true
  | list_logging_files ↦ not (is_empty r.logger_id) || not (is_empty r.client_id)
  | force_log_rotation ↦ not (is_empty r.logger_id)
  | stats ↦ true
  | list_clients ↦ true
  | _ ↦ false
]

-- `std::set::insert`; the order of the list stands for that of the set.
unfoldable pub insert_all : List Text → List Text → List Text
insert_all set [] = set
insert_all set (x ∷ xs) = insert_all (if member set x then set else set ++ x ∷ []) xs

-- `AdminRequest::deserialize`, of text that is parsed already: `levels_of` is what the JSON library
-- has for the array of levels, none where it has no such array.
unfoldable pub deserialize : (JsonDoc → List Text) → JsonDoc → AdminRequest → AdminRequest
unfolding is_complete
deserialize levels_of doc r =
    let r1 = record r { base = Request.deserialize validate_admin_timestamp doc r.base } in
    let read = record r1 {
      kind = cast (get_unsigned doc (codes "type") 0);
      client_id = get_string doc (codes "client_id") [];
      logger_id = get_string doc (codes "logger_id") [];
      logging_levels = insert_all r.logging_levels (levels_of doc);
    } in
    if r1.base.is_valid
    then record read { base = record (r1.base) { is_valid = is_complete read } }
    else r1
