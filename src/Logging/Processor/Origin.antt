-- ===== src/Logging/Processor/Origin.antt =====
-- The requests that a raw packet brings to the loggers, by
-- `ClientQueueProcessor::processRequestQueue` (src/logging/client-queue-processor.cc).
use residue.Core.Client.{Client}
use residue.Core.Configuration.{Configuration, has_flag}
use residue.Core.Configuration.Flag
use residue.Core.JsonDoc.{JsonDoc}
use residue.Core.Registry.{Registry, find_client}
use residue.Core.RequestHandler.Handle.{RawRequest}
use residue.Crypto.{Library}
use residue.Logging.LogRequest.{LogRequest, Levels, is_bulk}
use residue.Logging.Processor.{
  State, is_status_ok, stamp, pointee, bulk_item, read_raw, process_decrypted, process_raw,
}
use residue.Logging.Processor.Bulk.{from_first, passes, valid_items}
use residue.Logging.Processor.Decrypted.{
  admitted, process_decrypted_lem, process_decrypted-no_client,
}
use residue.Prelude.{
  ℕ, zero, suc, ◌≤◌, max, ◌≡◌, refl, sym, ap, ◌∙◌, inl, inr, Bool, true, not, ◌&&◌, Option, none,
  some, List, [], ◌∷◌, ◌++◌, append-nil, arith, Option-cases, length, take, All, Text, if_cases,
}

-- A valid request that carries the id of a client of the registry.
abbrev pub IsOwned : Registry → LogRequest → Type 0
IsOwned registry r =
    (r.base.is_valid ≡ true)
    × (id : Text) × (c : Client) × (find_client registry id ≡ some c)
    × (r.client_id ≡ c.id)
    × (r.base.client ≡ some c.id)

All-take {ℓ κ} : {A : Type ℓ} (P : A → Type κ) (n : ℕ) (xs : List A) → All P xs → All P (take n xs)
All-take P zero xs h = tt
All-take P (suc n) [] h = tt
All-take P (suc n) (x ∷ xs) h = (h.0, All-take P n xs h.1)

All-from_first {ℓ κ} :
    {A : Type ℓ} (P : A → Type κ) (p : A → Bool) (xs : List A) → All P xs → All P (from_first p xs)
All-from_first P p [] h = tt
All-from_first P p (x ∷ xs) h = if_cases (All P) (p x) _ _ (λ _. h) (λ _. All-from_first P p xs h.1)

length-take {ℓ} : {A : Type ℓ} (n : ℕ) (xs : List A) → length (take n xs) ≤ n
length-take zero xs = omega arith
length-take (suc n) [] = omega arith
length-take (suc n) (x ∷ xs) = omega (arith, length-take n xs)

length-from_first {ℓ} :
    {A : Type ℓ} (p : A → Bool) (xs : List A) → length (from_first p xs) ≤ length xs
length-from_first p [] = omega arith
length-from_first p (x ∷ xs) =
    if_cases (λ l. length l ≤ suc (length xs)) (p x) _ _ (λ _. omega arith)
      (λ _. omega (arith, length-from_first p xs))

module _ (registry : Registry) (now : ℕ) (levels : Levels) (parse : Text → JsonDoc)
    (fresh : LogRequest) where
  valid_items-IsOwned :
      (conf : Configuration) (request : LogRequest) (id : Text) (c : Client) (texts : List Text)
      → find_client registry id ≡ some c
      → All (IsOwned registry) (valid_items conf registry now levels parse fresh request c texts)
  valid_items-IsOwned conf request id c [] found = tt
  valid_items-IsOwned conf request id c (text ∷ texts) found =
      if_cases (All (IsOwned registry))
        (bulk_item registry now levels parse fresh conf request text).base.is_valid _ _
        (λ y. ((y, id, c, found, refl, refl), valid_items-IsOwned conf request id c texts found))
        (λ _. valid_items-IsOwned conf request id c texts found)

  -- What the loggers are given anew.
  abbrev Brings : State → State → Type 0
  Brings s after =
      (new : List LogRequest) × (after.dispatched ≡ s.dispatched ++ new)
      × All (IsOwned registry) new
      × (length new ≤ max 1 s.conf.max_items_in_bulk)

  admitted_lem :
      (conf : Configuration) (request : LogRequest) (id : Text) (c : Client)
      → find_client registry id ≡ some c
      → All (IsOwned registry) (admitted registry now levels parse fresh conf c request)
        × (length (admitted registry now levels parse fresh conf c request)
            ≤ max 1 conf.max_items_in_bulk)
  admitted_lem conf request id c found =
      let P : List LogRequest → Type 0 =
        λ l. All (IsOwned registry) l × (length l ≤ max 1 conf.max_items_in_bulk) in
      let items =
        valid_items conf registry now levels parse fresh request c request.base.json_doc.items in
      let first = take conf.max_items_in_bulk items in
      if_cases P (not (is_status_ok request.base.status_code)) _ _ (λ _. (tt, omega arith))
        λ _.
          if_cases P (is_bulk request) _ _
            (λ _.
              if_cases P (has_flag conf Flag.allow_bulk_log_request) _ _
                (λ _. (
                  All-from_first (IsOwned registry) (passes conf now c) first (
                      All-take (IsOwned registry) conf.max_items_in_bulk items
                        (valid_items-IsOwned conf request id c request.base.json_doc.items found)),
                  omega (
                    arith,
                    length-from_first (passes conf now c) first,
                    length-take conf.max_items_in_bulk items,
                  ),
                ))
                (λ _. (tt, omega arith)))
            (λ _.
              if_cases P (request.base.is_valid && passes conf now c (stamp c request)) _ _
                (λ y. (((and_left _ _ y, id, c, found, refl, refl), tt), omega arith))
                (λ _. (tt, omega arith)))
    where
      and_left : (a b : Bool) → (a && b) ≡ true → a ≡ true
      and_left a b h = ground arith

  process_decrypted-Brings :
      (request : LogRequest) (s : State)
      → Brings s (process_decrypted registry now levels parse fresh request s)
  process_decrypted-Brings request s = go request.base.client refl
    where
      nothing :
          pointee registry now request.base.client ≡ none
          → Brings s (process_decrypted registry now levels parse fresh request s)
      nothing missing = (
        [],
        ap (λ (t : State). t.dispatched)
              (process_decrypted-no_client registry now levels parse fresh request s missing)
            ∙ sym (append-nil s.dispatched),
        tt,
        omega arith,
      )

      go :
          (o : Option Text)
          → request.base.client ≡ o
          → Brings s (process_decrypted registry now levels parse fresh request s)
      go none named = nothing (ap (pointee registry now) named)
      go (some id) named = elim (Option-cases (find_client registry id)) [
        | inl missing ↦ nothing (ap (pointee registry now) named ∙ missing)
        | inr (c, found) ↦
            let (owned, bounded) = admitted_lem s.conf request id c found in
            (
              admitted registry now levels parse fresh s.conf c request,
              process_decrypted_lem registry now levels parse fresh request id c s named found,
              owned,
              bounded,
            )
      ]

  -- Whatever packet a queue hands over, what it brings to the loggers are valid requests that carry
  -- the id of a client of the registry, no more than one, or no more than a bulk may have, behind
  -- what the loggers had.
  pub process_raw-IsOwned :
      (lib : Library) (raw : RawRequest) (s : State)
      → (new : List LogRequest) × ((process_raw registry now levels parse fresh lib raw
            s).dispatched
          ≡ s.dispatched ++ new)
        × All (IsOwned registry) new
        × (length new ≤ max 1 s.conf.max_items_in_bulk)
  unfolding process_raw
  process_raw-IsOwned lib raw s =
      process_decrypted-Brings (read_raw registry now levels parse fresh lib raw s) s
