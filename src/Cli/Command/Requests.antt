-- ===== src/Cli/Command/Requests.antt =====
-- What the commands (src/cli) read of the parameters that an administrator's request becomes
-- (src/admin/admin-request-handler.cc).
use residue.Admin.Command.{levels_csv, given, command}
use residue.Admin.Request.{
  AdminRequest, Kind, unknown, invalid, reload_config, reset, list_logging_files,
  force_log_rotation, stats, list_clients,
}
use residue.Cli.Command.{get_param_value}
use residue.Prelude.{
  ◌≡◌, refl, ◌∙◌, false, Option, none, some, List, [], ◌∷◌, ◌++◌, Text, codes, text_eq,
}

-- The command of a request finds what the request has.
abbrev pub IsRead : AdminRequest → Option (Text × List Text) → Type 0
IsRead r none = Unit
IsRead r (some (name, params)) = elim r.kind as (λ _. Type 0) [
  | reload_config ↦ get_param_value params (codes "--logger-id") ≡ r.logger_id
  | force_log_rotation ↦ get_param_value params (codes "--logger-id") ≡ r.logger_id
  | stats ↦ get_param_value params (codes "--client-id") ≡ r.client_id
  | list_logging_files ↦
      (get_param_value params (codes "--client-id") ≡ r.client_id)
      × (get_param_value params (codes "--levels") ≡ levels_csv r.logging_levels)
      × (get_param_value params (codes "--logger-id") ≡ r.logger_id)
  | _ ↦ Unit
]

skip_param :
    (p : Text) (params : List Text) (param : Text)
    → text_eq p param ≡ false
    → get_param_value (p ∷ params) param ≡ get_param_value params param
unfolding get_param_value
skip_param p [] param h = refl
skip_param p (v ∷ params) param h = rw h refl

read_given :
    (value : Text)
    → get_param_value (given (codes "--logger-id") value) (codes "--logger-id") ≡ value
unfolding get_param_value text_eq
read_given [] = refl
read_given (c ∷ value) = refl

read_client :
    (value : Text) (params : List Text)
    → get_param_value (codes "--client-id" ∷ value ∷ params) (codes "--client-id") ≡ value
unfolding get_param_value text_eq
read_client value params = refl

read_rotate :
    (value : Text)
    → get_param_value (codes "--logger-id" ∷ value ∷ []) (codes "--logger-id") ≡ value
unfolding get_param_value text_eq
read_rotate value = refl

read_stats :
    (value : Text)
    → get_param_value (codes "list" ∷ given (codes "--client-id") value) (codes "--client-id")
      ≡ value
unfolding get_param_value text_eq
read_stats [] = refl
read_stats (c ∷ value) = refl

skip_client :
    (value : Text) (params : List Text) (param : Text)
    → text_eq (codes "--client-id") param ≡ false
    → text_eq value param ≡ false
    → get_param_value (codes "--client-id" ∷ value ∷ params) param ≡ get_param_value params param
skip_client value params param h k =
    skip_param (codes "--client-id") (value ∷ params) param h ∙ skip_param value params param k

read_levels :
    (levels logger_id : Text)
    → get_param_value
        (given (codes "--levels") levels ++ given (codes "--logger-id") logger_id)
        (codes "--levels")
      ≡ levels
unfolding get_param_value text_eq
read_levels [] [] = refl
read_levels [] (c ∷ logger_id) = refl
read_levels (c ∷ levels) logger_id = refl

read_logger :
    (levels logger_id : Text)
    → text_eq levels (codes "--logger-id") ≡ false
    → get_param_value
        (given (codes "--levels") levels ++ given (codes "--logger-id") logger_id)
        (codes "--logger-id")
      ≡ logger_id
unfolding text_eq
read_logger [] logger_id h = read_given logger_id
read_logger (c ∷ levels) logger_id h =
    skip_param (codes "--levels") _ (codes "--logger-id") ne
    ∙ (skip_param (c ∷ levels) _ (codes "--logger-id") h ∙ read_given logger_id)
  where
    ne : text_eq (codes "--levels") (codes "--logger-id") ≡ false
    ne = cc

IsRead-by_kind :
    (r : AdminRequest) (kind : Kind)
    → text_eq r.client_id (codes "--levels") ≡ false
    → text_eq r.client_id (codes "--logger-id") ≡ false
    → text_eq (levels_csv r.logging_levels) (codes "--logger-id") ≡ false
    → IsRead (record r { kind = kind }) (command (record r { kind = kind }))
unfolding command text_eq
IsRead-by_kind r unknown h1 h2 h3 = tt
IsRead-by_kind r invalid h1 h2 h3 = tt
IsRead-by_kind r reset h1 h2 h3 = tt
IsRead-by_kind r list_clients h1 h2 h3 = tt
IsRead-by_kind r reload_config h1 h2 h3 = read_given r.logger_id
IsRead-by_kind r force_log_rotation h1 h2 h3 = read_rotate r.logger_id
IsRead-by_kind r stats h1 h2 h3 = read_stats r.client_id
IsRead-by_kind r list_logging_files h1 h2 h3 =
    let levels = levels_csv r.logging_levels in
    let more = given (codes "--levels") levels ++ given (codes "--logger-id") r.logger_id in
    (
      read_client r.client_id more,
      skip_client r.client_id more (codes "--levels") refl h1 ∙ read_levels levels r.logger_id,
      skip_client r.client_id more (codes "--logger-id") refl h2
          ∙ read_logger levels r.logger_id h3,
    )

-- A request's logger, client and levels are what the command that it becomes reads of its parameters,
-- provided that the client and the levels are not spelled like the name of a later parameter.
pub command-IsRead :
    (r : AdminRequest)
    → text_eq r.client_id (codes "--levels") ≡ false
    → text_eq r.client_id (codes "--logger-id") ≡ false
    → text_eq (levels_csv r.logging_levels) (codes "--logger-id") ≡ false
    → IsRead r (command r)
command-IsRead r not_levels not_logger no_logger =
    IsRead-by_kind r r.kind not_levels not_logger no_logger
