-- ===== src/Logging/Processor/Bulk.antt =====
-- The items of a bulk in `ClientQueueProcessor::processRequestQueue`
-- (src/logging/client-queue-processor.cc).
use residue.Core.Client.{Client, is_alive}
use residue.Core.Configuration.{
  Configuration, has_flag, is_managed_logger, is_blacklisted, update_unmanaged_logger_user,
}
use residue.Core.JsonDoc.{JsonDoc}
use residue.Core.Registry.{Registry, find_client}
use residue.Connect.Outcome.{Session}
use residue.Logging.LogRequest.{LogRequest, Levels, read_fields, validate_log_timestamp}
use residue.Logging.LogRequest
use residue.Core.Request.{validate_timestamp}
use residue.Core.Request
use residue.Logging.Processor.{
  State, is_request_allowed, note_logger_user, dispatch, stamp, update_session, process_for,
  for_client, process_request, bulk_item, inherit, process_items,
}
use residue.Prelude.Map
use residue.Prelude.{
  ℕ, zero, suc, ◌+◌, ◌≡◌, refl, sym, ap, ◌∙◌, ◌≢◌, inl, inr, Bool, true, false, not, ◌&&◌, ◌||◌,
  Option, some, List, [], ◌∷◌, ◌++◌, append_assoc, append-nil, arith, ◌==◌, if◌then◌else◌, ==_iff,
  Bool-cases, take, Text, if_true,
}

-- The list from the first entry on that passes the test.
abbrev pub from_first {ℓ} : {A : Type ℓ} → (A → Bool) → List A → List A
from_first p [] = []
from_first p (x ∷ xs) = if p x then x ∷ xs else from_first p xs

-- The test of a request that is checked: its client was alive when it came, and may use its logger.
abbrev pub passes : Configuration → ℕ → Client → LogRequest → Bool
passes conf now c r = is_alive c now r.base.date_received && is_request_allowed conf r (some c)

==_false : (a b : ℕ) → a ≢ b → (a == b) ≡ false
==_false a b h = ground arith

module _ (conf : Configuration) where
  -- What processing can make of the configuration and of the rest of the state.
  abbrev pub at : Map.Map Text → Option Session → List LogRequest → State
  at users session dispatched = record {
    conf = record conf { unmanaged_logger_user_map = users };
    session = session;
    dispatched = dispatched;
  }

  note_logger_user-users :
      (users : Map.Map Text) (r : LogRequest)
      → (users' : Map.Map Text) × (note_logger_user
            (record conf { unmanaged_logger_user_map = users })
            r
          ≡ record conf { unmanaged_logger_user_map = users' })
  unfolding note_logger_user update_unmanaged_logger_user
  note_logger_user-users users r = (
    (note_logger_user (record conf { unmanaged_logger_user_map = users })
        r).unmanaged_logger_user_map,
    ground arith,
  )

  noted_conf :
      (c : Client) (r : LogRequest) (users : Map.Map Text)
      → let old = record conf { unmanaged_logger_user_map = users } in
        (users' : Map.Map Text) × ((if c.is_managed then note_logger_user old (stamp c r) else old)
          ≡ record conf { unmanaged_logger_user_map = users' })
  noted_conf c r users = elim (Bool-cases c.is_managed) [
    | inl managed ↦ rw managed (note_logger_user-users users (stamp c r))
    | inr unmanaged ↦ (users, rw unmanaged refl)
  ]

  if_dispatched :
      (b : Bool) (users : Map.Map Text) (session : Option Session) (before after : List LogRequest)
      → ◌≡◌ {A = Bool × State}
          (if not b then (false, at users session before) else (true, at users session after))
          (b, at users session (if b then after else before))
  if_dispatched true users session before after = refl
  if_dispatched false users session before after = refl

  -- One request, with its client at hand.
  pub process_for_lem :
      (registry : Registry) (now : ℕ) (c : Client) (bypass : Bool) (r : LogRequest)
      (users : Map.Map Text) (session : Option Session) (before : List LogRequest)
      → r.base.is_valid ≡ true
      → let ok = bypass || passes conf now c (stamp c r) in
        (users' : Map.Map Text) × (session' : Option Session) × (process_for registry now c bypass r
            (at users session before)
          ≡ (ok, at users' session' (if ok then before ++ stamp c r ∷ [] else before)))
  unfolding process_for dispatch has_flag is_managed_logger is_blacklisted
  process_for_lem registry now c true r users session before valid =
      (users, update_session c.id session, rw valid refl)
  process_for_lem registry now c false r users session before valid =
      elim (Bool-cases (is_alive c now r.base.date_received)) [
        | inr dead ↦ (users, session, rw dead refl)
        | inl alive ↦
            let (users', noted) = noted_conf c r users in
            (
              users',
              update_session c.id session,
              rw (alive, noted) (checked users' (update_session c.id session)),
            )
      ]
    where
      checked :
          (users' : Map.Map Text) (session' : Option Session)
          → ◌≡◌ {A = Bool × State}
              (if not r.base.is_valid
                then (false, at users' session' before)
                else if not (
                    is_request_allowed
                      (record conf { unmanaged_logger_user_map = users' })
                      (stamp c r)
                      (some c))
                then (false, at users' session' before)
                else (true, at users' session' (before ++ stamp c r ∷ [])))
              (
                is_request_allowed conf (stamp c r) (some c),
                at users' session' (
                    if is_request_allowed conf (stamp c r) (some c)
                    then before ++ stamp c r ∷ []
                    else before),
              )
      checked users' session' =
          ap
            (λ v.
              if not v
              then (false, at users' session' before)
              else if not (
                  is_request_allowed (record conf { unmanaged_logger_user_map = users' })
                    (stamp c r) (some c))
              then (false, at users' session' before)
              else (true, at users' session' (before ++ stamp c r ∷ [])))
            valid
          ∙ if_dispatched (is_request_allowed conf (stamp c r) (some c)) users' session' before
              (before ++ stamp c r ∷ [])

  module _ (registry : Registry) (now : ℕ) (levels : Levels) (parse : Text → JsonDoc)
      (fresh : LogRequest) where
    -- The valid items of a bulk, with what they take over from it and the client's id.
    abbrev pub valid_items : LogRequest → Client → List Text → List LogRequest
    valid_items request c [] = []
    valid_items request c (text ∷ texts) =
        let item = bulk_item registry now levels parse fresh conf request text in
        let rest = valid_items request c texts in
        if item.base.is_valid
        then stamp c (inherit registry now levels parse fresh request item) ∷ rest
        else rest

    -- What the loop adds to the dispatched requests, from there on.
    abbrev pub wanted : Bool → Client → ℕ → List LogRequest → List LogRequest
    wanted force c left items =
        let first = take left items in if force then from_first (passes conf now c) first else first

    bulk_item-at :
        (users : Map.Map Text) (request : LogRequest) (text : Text)
        → bulk_item registry now levels parse fresh
            (record conf { unmanaged_logger_user_map = users })
            request
            text
          ≡ bulk_item registry now levels parse fresh conf request text
    unfolding bulk_item LogRequest.deserialize read_fields Request.deserialize
        validate_log_timestamp validate_timestamp has_flag
    bulk_item-at users request text = refl

    process_request_named :
        (item : LogRequest) (o : Option Text) (id : Text) (c : Client) (force : Bool)
        (users : Map.Map Text) (session : Option Session) (before : List LogRequest)
        → o ≡ some id
        → find_client registry id ≡ some c
        → item.base.is_valid ≡ true
        → let ok = not force || passes conf now c (stamp c item) in
          (users' : Map.Map Text) × (session' : Option Session) × (process_request registry now item
              (some o)
              force
              (at users session before)
            ≡ (ok, at users' session' (if ok then before ++ stamp c item ∷ [] else before)))
    unfolding process_request
    process_request_named item o id c force users session before named found valid =
        let (users', session', e) =
          process_for_lem registry now c (not force) item users session before valid in
        (
          users',
          session',
          ap (λ o. process_request registry now item (some o) force (at users session before)) named
              ∙ ap (λ f. for_client registry now f (not force) item (at users session before)) found
              ∙ e,
        )

    wanted_nil : (force : Bool) (c : Client) (left : ℕ) → wanted force c left [] ≡ []
    wanted_nil true c zero = refl
    wanted_nil true c (suc left) = refl
    wanted_nil false c zero = refl
    wanted_nil false c (suc left) = refl

    wanted_zero :
        (force : Bool) (c : Client) (items : List LogRequest) → wanted force c 0 items ≡ []
    wanted_zero true c items = refl
    wanted_zero false c items = refl

    -- One request more: whether it was checked, and what comes of the check.
    wanted_cons :
        (force : Bool) (c : Client) (left : ℕ) (new : LogRequest) (before rest : List LogRequest)
        → let ok = not force || passes conf now c new in
          (if ok then before ++ new ∷ [] else before) ++ wanted (not ok) c left rest
          ≡ before ++ wanted force c (suc left) (new ∷ rest)
    wanted_cons false c left new before rest = append_assoc before _ _
    wanted_cons true c left new before rest = elim (Bool-cases (passes conf now c new)) [
      | inl y ↦ rw y (append_assoc before _ _)
      | inr n ↦ rw n refl
    ]

    pub process_items_lem :
        (texts : List Text) (request : LogRequest) (id : Text) (c : Client) (force : Bool)
        (count left : ℕ) (users : Map.Map Text) (session : Option Session)
        (before : List LogRequest)
        → request.base.client ≡ some id
        → find_client registry id ≡ some c
        → count + left ≡ conf.max_items_in_bulk
        → (process_items registry now levels parse fresh request force count texts
            (at users session before)).dispatched
          ≡ before ++ wanted force c left (valid_items request c texts)
    unfolding process_items
    process_items_lem [] request id c force count left users session before named found bound =
        rw (wanted_nil force c left) (sym (append-nil before))
    process_items_lem (text ∷ texts) request id c force count zero users session before named found
          bound =
        rw ((==_iff count conf.max_items_in_bulk).1 (omega arith), wanted_zero force c)
          (sym (append-nil before))
    process_items_lem (text ∷ texts) request id c force count (suc left) users session before named
          found bound =
        rw (==_false count conf.max_items_in_bulk (omega arith), bulk_item-at users request text)
          (elim (Bool-cases item.base.is_valid) [
            | inr unreadable ↦ rw unreadable (
                process_items_lem texts request id c force count (suc left) users session before
                  named found bound)
            | inl readable ↦
                let (users', session', e) =
                  process_request_named passed request.base.client id c force users session before
                    named found readable in
                ap (λ (t : State). t.dispatched) (if_true _ _ _ readable)
                ∙ ap
                    (λ q.
                      (process_items registry now levels parse fresh request (not q.0) (suc count)
                        texts q.1).dispatched)
                    e
                ∙ process_items_lem texts request id c _ (suc count) left users' session' _ named
                    found (omega arith)
                ∙ wanted_cons force c left (stamp c passed) before (valid_items request c texts)
                ∙ sym (ap (λ l. before ++ wanted force c (suc left) l) (if_true _ _ _ readable))
          ])
      where
        item : LogRequest
        item = bulk_item registry now levels parse fresh conf request text

        passed : LogRequest
        passed = inherit registry now levels parse fresh request item
