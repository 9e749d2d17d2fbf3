-- ===== src/Core/Configuration/ManagedClients/Sound.antt =====
-- What should hold of the managed clients that `Configuration::loadManagedClients`
-- (src/core/configuration.cc) loads.
use residue.Core.Configuration.{Configuration, is_managed_logger, unmanaged_client_id, member}
use residue.Core.Configuration.ManagedClients.{
  ClientNode, Host, ClientComplaint, is_size, refusal, foreign_default, take_in, collect_loggers,
  assign_user, with_loggers, after_key, load_client, load_managed_clients,
}
use residue.Utils.Strings.{is_alpha_numeric}
use residue.Prelude.Map
use residue.Prelude.Map.{Map, is_some}
use residue.Prelude.{
  ℕ, ◌≡◌, subst, inl, inr, Bool, true, not, ◌&&◌, Option, none, some, List, [], ◌∷◌, ◌++◌, arith,
  if◌then◌else◌, Bool-cases, Option-cases, All, Text, codes, text_eq, text_eq_iff, is_empty,
  All-append, if_cases,
}

abbrev pub is_legal : Text → Bool
is_legal id =
    not (is_empty id) && is_alpha_numeric id (codes "-_@#.") && not (text_eq id unmanaged_client_id)

-- Each client stands once, under a legal id, which is not the one that stands for all unmanaged
-- clients; the sizes of keys are those of AES; default loggers are managed, and so are the loggers
-- that have a user.
pub record IsSound (conf : Configuration) : Type 0 where
  pub unique : Map.UniqueKeys conf.managed_clients_keys
  pub legal : All (λ (e : Text × (Text × Text)). is_legal e.0 ≡ true) conf.managed_clients_keys
  pub sizes : All (λ (e : Text × ℕ). is_size e.1 ≡ true) conf.key_sizes
  pub defaults :
      All
        (λ (e : Text × Text). is_managed_logger conf e.1 ≡ true)
        conf.managed_client_default_logger
  pub users :
      All (λ (e : Text × Text). is_managed_logger conf e.0 ≡ true) conf.managed_logger_user_map

pub All-insert {ℓ} :
    {V : Type ℓ} (P : Text × V → Type 0) (m : Map V) (k : Text) (v : V)
    → P (k, v)
    → All P m
    → All P (Map.insert m k v)
unfolding Map.insert
All-insert P [] k v p h = (p, tt)
All-insert P ((j, w) ∷ m) k v p h =
    if_cases (All P) (text_eq j k) _ _ (λ _. h) (λ _. (h.0, All-insert P m k v p h.1))

take_in-IsSound :
    (host : Host) (via_url : Bool) (node : ClientNode) (file key : Text) (conf : Configuration)
    → is_legal node.client_id ≡ true
    → IsSound conf
    → IsSound (take_in via_url node file key conf)
unfolding take_in is_managed_logger
take_in-IsSound host via_url node file key conf legal s = record {
  unique = Map.UniqueKeys-insert conf.managed_clients_keys node.client_id (file, key) s.unique;
  legal = All-insert _ conf.managed_clients_keys node.client_id (file, key) legal s.legal;
  sizes =
      if_cases (All (λ (e : Text × ℕ). is_size e.1 ≡ true)) (is_size node.key_size) _ _
        (λ y. All-insert _ conf.key_sizes node.client_id node.key_size y s.sizes) (λ _. s.sizes);
  defaults = s.defaults;
  users = s.users;
}

-- Only managed loggers are collected.
collect_loggers_managed :
    (conf : Configuration) (ids set : List Text)
    → All (λ id. is_managed_logger conf id ≡ true) set
    → All (λ id. is_managed_logger conf id ≡ true) (collect_loggers conf set ids).0
unfolding collect_loggers
collect_loggers_managed conf [] set h = h
collect_loggers_managed conf (id ∷ ids) set h = elim (Bool-cases (is_empty id)) [
  | inl y ↦ rw y (collect_loggers_managed conf ids set h)
  | inr n ↦ elim (Bool-cases (is_managed_logger conf id)) [
    | inr unmanaged ↦ rw (n, unmanaged) (collect_loggers_managed conf ids set h)
    | inl managed ↦
        rw (n, managed)
          (collect_loggers_managed conf ids _ (
            if_cases (All (λ id. is_managed_logger conf id ≡ true)) (member set id) _ _ (λ _. h)
              (λ _. All-append _ set (id ∷ []) h (managed, tt))))
  ]
]

member-All :
    (P : Text → Type 0) (ids : List Text) (id : Text) → All P ids → member ids id ≡ true → P id
member-All P [] id h e = ground arith
member-All P (x ∷ xs) id h e = elim (Bool-cases (text_eq x id)) [
  | inl y ↦ subst P ((text_eq_iff x id).0 y) h.0
  | inr n ↦ member-All P xs id h.1 (rw n at e)
]

assign_user-All :
    (P : Text × Text → Type 0) (user : Text) (ids : List Text) (users : Map Text)
    → All (λ id. P (id, user)) ids
    → All P users
    → All P (assign_user user ids users)
unfolding assign_user
assign_user-All P user [] users h k = k
assign_user-All P user (id ∷ ids) users h k =
    assign_user-All P user ids (Map.insert users id user) h.1 (All-insert P users id user h.0 k)

-- What `with_loggers` changes, by field.
with_fields-IsSound :
    (conf : Configuration) (loggers : Map (List Text)) (defaults users : Map Text)
    → All (λ (e : Text × Text). is_managed_logger conf e.1 ≡ true) defaults
    → All (λ (e : Text × Text). is_managed_logger conf e.0 ≡ true) users
    → IsSound conf
    → IsSound (record conf {
      managed_clients_loggers = loggers;
      managed_client_default_logger = defaults;
      managed_logger_user_map = users;
    })
unfolding is_managed_logger
with_fields-IsSound conf loggers defaults users d u s = record {
  unique = s.unique;
  legal = s.legal;
  sizes = s.sizes;
  defaults = d;
  users = u;
}

with_loggers-IsSound :
    (host : Host) (node : ClientNode) (ids : List Text) (conf : Configuration)
    → All (λ id. is_managed_logger conf id ≡ true) ids
    → IsSound conf
    → IsSound (with_loggers host node ids conf).0
unfolding with_loggers
with_loggers-IsSound host node ids conf managed s =
    let P : Configuration × List ClientComplaint → Type 0 = λ p. IsSound p.0 in
    if_cases P (is_empty node.user) _ _
      (λ _. with_fields-IsSound conf _ _ conf.managed_logger_user_map defaults s.users s)
      λ _.
        if_cases P (not (host.has_user node.user)) _ _
          (λ _. with_fields-IsSound conf _ _ conf.managed_logger_user_map defaults s.users s)
          (λ _.
            with_fields-IsSound conf _ _ _ defaults
              (assign_user-All (λ e. is_managed_logger conf e.0 ≡ true) node.user ids
                conf.managed_logger_user_map managed s.users)
              s)
  where
    is_default : Bool
    is_default = not (is_empty node.default_logger) && member ids node.default_logger

    defaults :
        All
          (λ (e : Text × Text). is_managed_logger conf e.1 ≡ true)
          (if is_default
            then Map.insert conf.managed_client_default_logger node.client_id node.default_logger
            else conf.managed_client_default_logger)
    defaults =
        if_cases (All (λ (e : Text × Text). is_managed_logger conf e.1 ≡ true)) is_default _ _
          (λ y.
            All-insert (λ e. is_managed_logger conf e.1 ≡ true) conf.managed_client_default_logger
              node.client_id node.default_logger
              (member-All (λ id. is_managed_logger conf id ≡ true) ids node.default_logger managed
                (ground (arith, y)))
              s.defaults)
          (λ _. s.defaults)

after_key-IsSound :
    (host : Host) (node : ClientNode) (conf : Configuration)
    → IsSound conf
    → IsSound (after_key host node conf).0
unfolding after_key
after_key-IsSound host node conf s = go node.loggers
  where
    go :
        (o : Option (List Text))
        → IsSound
            (elim o as (λ _. Configuration × List ClientComplaint) [
              | none ↦ (conf, if is_empty node.default_logger then [] else foreign_default ∷ [])
              | some ids ↦
                  let (set, complaints) = collect_loggers conf [] ids in
                  let (conf', more) = with_loggers host node set conf in (conf', complaints ++ more)
            ]).0
    go none = s
    go (some ids) =
        with_loggers-IsSound host node (collect_loggers conf [] ids).0 conf
          (collect_loggers_managed conf ids [] tt) s

refusal-is_legal :
    (host : Host) (node : ClientNode) (conf : Configuration)
    → refusal host node conf ≡ none
    → is_legal node.client_id ≡ true
unfolding refusal
refusal-is_legal host node conf h = ground (arith, h)

load_client-IsSound :
    (host : Host) (via_url : Bool) (node : ClientNode) (conf : Configuration)
    → IsSound conf
    → IsSound (load_client host via_url node conf).0
unfolding load_client
load_client-IsSound host via_url node conf s = elim (Option-cases (refusal host node conf)) [
  | inr (complaint, e) ↦ rw (e, load_client) s
  | inl fine ↦
      rw (fine, load_client)
        (elim (Option-cases (host.contents (host.resolve node.public_key))) [
          | inl e ↦ rw e s
          | inr (key, e) ↦ rw e (
              after_key-IsSound host node _ (
                take_in-IsSound host via_url node (host.resolve node.public_key) key conf
                  (refusal-is_legal host node conf fine) s))
        ])
]

-- However the array of managed clients looks, and whatever files and users there are, the loading of
-- it keeps the configuration sound: each managed client stands once, under an id of the allowed
-- characters that is not the one of the unmanaged clients, with a key size of AES, a default logger
-- that is managed, and users for managed loggers only.
pub load_managed_clients-IsSound :
    (host : Host) (via_url : Bool) (nodes : List ClientNode) (conf : Configuration)
    → IsSound conf
    → IsSound (load_managed_clients host via_url nodes conf).0
unfolding load_managed_clients
load_managed_clients-IsSound host via_url [] conf s = s
load_managed_clients-IsSound host via_url (node ∷ nodes) conf s =
    load_managed_clients-IsSound host via_url nodes (load_client host via_url node conf).0
      (load_client-IsSound host via_url node conf s)
