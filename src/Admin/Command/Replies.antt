-- ===== src/Admin/Command/Replies.antt =====
-- The replies of `AdminRequestHandler` (src/admin/admin-request-handler.cc) to what
-- `AdminRequest::deserialize` leaves.
use residue.Core.JsonDoc.{JsonDoc}
use residue.Core.Request.{status_ok}
use residue.Admin.Request.{AdminRequest, is_complete, deserialize}
use residue.Admin.Command.{command, responds, runs, run_command, reply}
use residue.Prelude.{
  ◌≡◌, refl, ap, ◌⊎◌, inl, inr, true, false, some, List, arith, Bool-cases, Option-cases, Text,
  codes,
}

command-is_complete :
    (r : AdminRequest)
    → is_complete r ≡ true
    → (cmd : Text) × (params : List Text) × (command r ≡ some (cmd, params))
unfolding command is_complete
command-is_complete r h = elim (Option-cases (command r)) [
  | inl e ↦ absurd (ground (arith, h, e))
  | inr (c, e) ↦ (c.0, c.1, e)
]

valid_complete :
    (levels_of : JsonDoc → List Text) (doc : JsonDoc) (r : AdminRequest)
    → (deserialize levels_of doc r).base.is_valid ≡ true
    → is_complete (deserialize levels_of doc r) ≡ true
unfolding deserialize is_complete
valid_complete levels_of doc r h = ground (arith, h)

-- A request of an administrator that its decryption accepted is answered with a refusal, if it is
-- not valid, and else runs a command: that the request is unknown is never the answer.
pub reply-deserialize :
    (levels_of : JsonDoc → List Text) (doc : JsonDoc) (r : AdminRequest)
    → (deserialize levels_of doc r).base.status_code ≡ status_ok
    → let r' = deserialize levels_of doc r in
      ((r'.base.is_valid ≡ true)
        × (cmd : Text) × (params : List Text) × (reply r' ≡ runs cmd params))
      ⊎ ((r'.base.is_valid ≡ false) × (reply r' ≡ responds (codes "Invalid admin request")))
unfolding reply
reply-deserialize levels_of doc r ok =
    let r' = deserialize levels_of doc r in
    elim (Bool-cases r'.base.is_valid) [
      | inr invalid ↦ inr (invalid, rw (ok, invalid) refl)
      | inl valid ↦
          let (cmd, params, e) = command-is_complete r' (valid_complete levels_of doc r valid) in
          inl (valid, cmd, params, rw (ok, valid) (ap run_command e))
    ]
