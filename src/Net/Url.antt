-- ===== src/Net/Url.antt =====
-- `Url` (src/net/url.cc, url.h): the parts of an address.
pub mod Parts
use residue.Core.RequestHandler.{find_first_of}
use residue.Prelude.{
  ℕ, ◌+◌, Bool, false, not, ◌&&◌, Option, none, some, [], ◌∷◌, ltb, ◌==◌, if◌then◌else◌, length,
  take, drop, Text, codes, text_eq, is_empty,
}

pub record Url : Type 0 where
  pub protocol : Text
  pub host : Text
  pub port : Text
  pub path : Text
  pub query : Text

abbrev pub starts_with_protocol_end : Text → Bool
starts_with_protocol_end (a ∷ b ∷ c ∷ s) = a == b':' && b == b'/' && c == b'/'
starts_with_protocol_end _ = false

-- `std::search` for "://": what stands before it, and what behind it.
unfoldable pub cut_protocol : Text → Option (Text × Text)
cut_protocol [] = none
cut_protocol (c ∷ s) =
    let rest = cut_protocol s in
    if starts_with_protocol_end (c ∷ s)
    then some ([], drop 2 s)
    else elim rest [ none ↦ none | some (p, r) ↦ some (c ∷ p, r) ]

-- `find`, as a position; `end()` is the length.
abbrev pub or_end : Text → Option ℕ → ℕ
or_end s none = length s
or_end s (some n) = n

abbrev pub position : ℕ → Text → ℕ
position c s = or_end s (find_first_of c s)

-- What stands behind the protocol, and the rest of the constructor.
unfoldable pub of_rest : Text → Text → Url
unfolding find_first_of
of_rest protocol rest =
    let path_pos = position b'/' rest in
    let port_pos = position b':' rest in
    let host = take path_pos rest in
    let has_port = not (port_pos + 1 == length rest) && ltb (port_pos + 1) path_pos in
    let tail = drop path_pos rest in
    let query_pos = position b'?' tail in
    record {
      protocol = protocol;
      host = if has_port then take (position b':' host) host else host;
      port =
          if has_port
          then drop (port_pos + 1) host
          else if text_eq protocol (codes "https")
          then codes "443"
          else codes "80";
      path = take query_pos tail;
      query = drop (query_pos + 1) tail;
    }

unfoldable pub parse : Text → Url
unfolding cut_protocol of_rest
parse url = elim (cut_protocol url) [
  | none ↦ of_rest (codes "http") url
  | some (protocol, rest) ↦ of_rest protocol rest
]

unfoldable pub is_valid_url : Url → Bool
is_valid_url u = not (is_empty u.protocol) && not (is_empty u.host) && not (is_empty u.port)
