-- ===== src/Logging/LogRequest.antt =====
-- `LogRequest` (src/logging/log-request.cc, log-request.h).
use residue.Core.Configuration.{Configuration}
use residue.Core.JsonDoc.{JsonDoc, get_string, get_unsigned, get_unsigned_long}
use residue.Core.Request.{Request, validate_timestamp}
use residue.Core.Request
use residue.Core.RequestHandler.Handle.{RequestClass}
use residue.Prelude.{
  ℕ, ◌%◌, ◌^◌, Bool, not, ◌&&◌, ◌||◌, [], ◌==◌, if◌then◌else◌, Text, codes, is_empty,
}

-- The levels of Easylogging++, by their numbers: `cast_from_int` is its `castFromInt`.
pub record Levels : Type 0 where
  pub cast_from_int : ℕ → ℕ
  pub unknown : ℕ

pub record LogRequest : Type 0 where
  pub base : Request
  pub client_id : Text
  pub datetime : ℕ
  pub msg : Text
  pub logger_id : Text
  pub filename : Text
  pub function : Text
  pub thread_id : Text
  pub application_name : Text
  pub level : ℕ
  pub line_number : ℕ
  pub verbose_level : ℕ

abbrev pub is_bulk : LogRequest → Bool
is_bulk r = r.base.json_doc.is_array

module _ (levels : Levels) (conf : Configuration) where
  -- `LogRequest::validateTimestamp`, on the part that is a `Request`.
  unfoldable pub validate_log_timestamp : Request → Bool
  validate_log_timestamp r = r.json_doc.is_array || validate_timestamp conf r

  unfoldable pub read_fields : LogRequest → LogRequest
  read_fields r =
      let doc = r.base.json_doc in
      let read = record r {
        client_id = get_string doc (codes "client_id") [];
        datetime = get_unsigned_long doc (codes "datetime") 0;
        logger_id = get_string doc (codes "logger") (codes "default");
        filename = get_string doc (codes "file") [];
        function = get_string doc (codes "func") [];
        thread_id = get_string doc (codes "thread") [];
        msg = get_string doc (codes "msg") [];
        application_name = get_string doc (codes "app") [];
        level = levels.cast_from_int (get_unsigned doc (codes "level") levels.unknown);
        verbose_level = get_unsigned doc (codes "vlevel") 9 % 2 ^ 16;
        line_number = get_unsigned doc (codes "line") 0;
      } in
      record read {
        base = record (r.base) {
          is_valid =
              not (read.datetime == 0)
              && not (read.level == levels.unknown)
              && not (is_empty read.logger_id)
              && not (is_empty read.msg);
        };
      }

  -- `LogRequest::deserialize`, of text that is parsed already.
  unfoldable pub deserialize : JsonDoc → LogRequest → LogRequest
  unfolding read_fields
  deserialize doc r =
      let r1 = record r { base = Request.deserialize validate_log_timestamp doc r.base } in
      if r1.base.is_valid then read_fields r1 else r1

  -- The class as `RequestHandler::handle` uses it; `parse` is the JSON library's.
  abbrev pub request_class : (Text → JsonDoc) → RequestClass LogRequest
  request_class parse = record {
    base = λ r. r.base;
    with_base = λ b r. record r { base = b };
    deserialize = λ text r. deserialize (parse text) r;
  }
