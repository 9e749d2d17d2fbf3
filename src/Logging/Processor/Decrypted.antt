-- ===== src/Logging/Processor/Decrypted.antt =====
-- What a decrypted request brings to the loggers, by
-- `ClientQueueProcessor::processRequestQueue` (src/logging/client-queue-processor.cc).
use residue.Core.Client.{Client}
use residue.Core.Configuration.{Configuration, has_flag}
use residue.Core.Configuration.Flag
use residue.Core.JsonDoc.{JsonDoc}
use residue.Core.Registry.{Registry, find_client}
use residue.Logging.LogRequest.{LogRequest, Levels, is_bulk}
use residue.Logging.Processor.{
  State, is_status_ok, stamp, with_client_id, pointee, for_client, process_request, inherit,
  bulk_item, process_items, process_bulk, process_single, process_decrypted,
}
use residue.Logging.Processor.Bulk.{
  from_first, passes, valid_items, process_items_lem, process_for_lem,
}
use residue.Prelude.{
  ℕ, suc, ◌≡◌, refl, sym, ap, ◌∙◌, inl, inr, Bool, true, false, not, ◌&&◌, ◌||◌, Option, none, some,
  List, [], ◌∷◌, ◌++◌, append-nil, arith, ◌==◌, if◌then◌else◌, Bool-cases, take, Text, if_both,
}

module _ (registry : Registry) (now : ℕ) (levels : Levels) (parse : Text → JsonDoc)
    (fresh : LogRequest) where
  -- The requests that reach the loggers, for a client of the registry.
  abbrev pub admitted : Configuration → Client → LogRequest → List LogRequest
  admitted conf c request =
      if not (is_status_ok request.base.status_code)
      then []
      else if is_bulk request
      then (if has_flag conf Flag.allow_bulk_log_request
          then from_first (passes conf now c) (
              take conf.max_items_in_bulk (
                valid_items conf registry now levels parse fresh request c
                  request.base.json_doc.items))
          else [])
      else if request.base.is_valid && passes conf now c (stamp c request)
      then stamp c request ∷ []
      else []

  branches :
      (v b o p : Bool) (s s1 s2 : State) (l x : List LogRequest)
      → s1.dispatched ≡ s.dispatched ++ l
      → (v ≡ true → s2.dispatched ≡ s.dispatched ++ (if p then x else []))
      → (if (not v && not b) || not o then s else if b then s1 else s2).dispatched
        ≡ s.dispatched ++ (if not o then [] else if b then l else if v && p then x else [])
  branches v b false p s s1 s2 l x h k = ground (arith, append-nil s.dispatched)
  branches v true true p s s1 s2 l x h k = ground (arith, h)
  branches false false true p s s1 s2 l x h k = sym (append-nil s.dispatched)
  branches true false true p s s1 s2 l x h k = k refl

  module _ (request : LogRequest) (id : Text) (c : Client) (s : State)
      (named : request.base.client ≡ some id) (found : find_client registry id ≡ some c) where
    pointee_found : pointee registry now request.base.client ≡ some c
    pointee_found = ap (pointee registry now) named ∙ found

    bulk_lem :
        (process_bulk registry now levels parse fresh request s).dispatched
        ≡ s.dispatched
          ++ (if has_flag s.conf Flag.allow_bulk_log_request
              then from_first (passes s.conf now c) (
                  take s.conf.max_items_in_bulk (
                    valid_items s.conf registry now levels parse fresh request c
                      request.base.json_doc.items))
              else [])
    unfolding process_bulk
    bulk_lem = elim (Bool-cases (has_flag s.conf Flag.allow_bulk_log_request)) [
      | inr may_not ↦ rw may_not (sym (append-nil s.dispatched))
      | inl may ↦ rw may (
          process_items_lem s.conf registry now levels parse fresh request.base.json_doc.items
            request id c true 0 s.conf.max_items_in_bulk s.conf.unmanaged_logger_user_map s.session
            s.dispatched named found (omega arith))
    ]

    single_lem :
        request.base.is_valid ≡ true
        → (process_single registry now levels parse fresh request s).dispatched
          ≡ s.dispatched
            ++ (if passes s.conf now c (stamp c request) then stamp c request ∷ [] else [])
    unfolding process_single
    single_lem valid =
        ap (λ o. (process_request registry now (with_client_id o request) none true s).1.dispatched)
          pointee_found
        ∙ unfold process_request in
          ap
            (λ o.
              (for_client registry now o false (record request { client_id = c.id })
                s).1.dispatched)
            pointee_found
          ∙ (let (users', session', e) =
                process_for_lem s.conf registry now c false (record request { client_id = c.id })
                  s.conf.unmanaged_logger_user_map s.session s.dispatched valid in
              ap (λ (q : Bool × State). q.1.dispatched) e)
          ∙ append_if (passes s.conf now c (stamp c request))
      where
        append_if :
            (b : Bool)
            → (if b then s.dispatched ++ stamp c request ∷ [] else s.dispatched)
              ≡ s.dispatched ++ (if b then stamp c request ∷ [] else [])
        append_if true = refl
        append_if false = sym (append-nil s.dispatched)

  -- For a client that the registry has: a request that is no bulk reaches the loggers exactly if it
  -- is valid, its client was alive when it came and may use its logger. Of a bulk, where bulks are
  -- allowed, only the first items count that are valid, up to the limit; of these, all from the first
  -- one on that passes the same test reach the loggers, in their order: the later ones are not tested
  -- any more, whatever their loggers. Each carries the id of the client.
  pub process_decrypted_lem :
      (request : LogRequest) (id : Text) (c : Client) (s : State)
      → request.base.client ≡ some id
      → find_client registry id ≡ some c
      → (process_decrypted registry now levels parse fresh request s).dispatched
        ≡ s.dispatched ++ admitted s.conf c request
  unfolding process_decrypted
  process_decrypted_lem request id c s named found =
      branches request.base.is_valid (is_bulk request) (is_status_ok request.base.status_code)
        (passes s.conf now c (stamp c request)) s _ _ _ _ (bulk_lem request id c s named found)
        (single_lem request id c s named found)

  without :
      (o : Option Text) (item : LogRequest) (force : Bool) (s : State)
      → pointee registry now o ≡ none
      → item.base.client ≡ o
      → process_request registry now item (some o) force s ≡ (false, s)
  unfolding process_request
  without none item force s missing same = rw same refl
  without (some id) item force s missing same = rw missing refl

  process_items-without :
      (texts : List Text) (request : LogRequest) (force : Bool) (count : ℕ) (s : State)
      → pointee registry now request.base.client ≡ none
      → process_items registry now levels parse fresh request force count texts s ≡ s
  unfolding process_items
  process_items-without [] request force count s missing = refl
  process_items-without (text ∷ texts) request force count s missing =
      if_both (count == s.conf.max_items_in_bulk) _ _ refl (
        if_both _ _ _
          (ap
              (λ q.
                process_items registry now levels parse fresh request (not q.0) (suc count) texts
                  q.1)
              without'
            ∙ process_items-without texts request true (suc count) s missing)
          (process_items-without texts request force count s missing))
    where
      without' :
          process_request registry now
            (inherit registry now levels parse fresh request
              (bulk_item registry now levels parse fresh s.conf request text))
            (some request.base.client)
            force
            s
          ≡ (false, s)
      without' = without request.base.client _ force s missing refl

  single-without :
      (request : LogRequest) (s : State)
      → pointee registry now request.base.client ≡ none
      → process_single registry now levels parse fresh request s ≡ s
  unfolding process_single process_request
  single-without request s missing =
      ap
        (λ o.
          (for_client registry now (pointee registry now (with_client_id o request).base.client)
            false (with_client_id o request) s).1)
        missing
      ∙ ap (λ o. (for_client registry now o false request s).1) missing

  -- Without a client nothing is dispatched and nothing changes.
  pub process_decrypted-no_client :
      (request : LogRequest) (s : State)
      → pointee registry now request.base.client ≡ none
      → process_decrypted registry now levels parse fresh request s ≡ s
  unfolding process_decrypted process_bulk
  process_decrypted-no_client request s missing =
      if_both
        (not request.base.is_valid && not (is_bulk request)
          || not (is_status_ok request.base.status_code))
        _ _ refl
        (if_both (is_bulk request) _ _
          (if_both (has_flag s.conf Flag.allow_bulk_log_request) _ _
            (process_items-without request.base.json_doc.items request true 0 s missing) refl)
          (single-without request s missing))
