-- ===== src/Admin/Request/Valid.antt =====
-- When `AdminRequest::deserialize` (src/admin/admin-request.cc) leaves a valid request.
use residue.Core.JsonDoc.{JsonDoc, get_string, get_unsigned}
use residue.Core.JsonDoc
use residue.Core.Request
use residue.Admin.Request.{AdminRequest, cast}
use residue.Prelude.{ℕ, ◌%◌, ◌≡◌, ◌≢◌, ◌⊎◌, [], Text, codes}

-- What the number of the type asks of the logger and the client; the enumeration has 16 bits.
abbrev pub IsAllowed : ℕ → Text → Text → Type 0
IsAllowed number logger_id client_id =
    let type = number % 65536 in
    ((type ≡ 1) ⊎ ((type ≡ 4) ⊎ ((type ≡ 7) ⊎ (type ≡ 8))))
    ⊎ (((type ≡ 5) × ((logger_id ≢ []) ⊎ (client_id ≢ []))) ⊎ ((type ≡ 6) × (logger_id ≢ [])))

abbrev read : JsonDoc → AdminRequest → AdminRequest
read doc r = record r {
  kind = cast (get_unsigned doc (codes "type") 0);
  client_id = get_string doc (codes "client_id") [];
  logger_id = get_string doc (codes "logger_id") [];
}
