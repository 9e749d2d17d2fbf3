-- ===== src/Net/Url/Parts.antt =====
-- `Url` (src/net/url.cc) on addresses that are put together from their parts.
use residue.Core.RequestHandler.Decrypt.{Without, find_first_of-append, take-append, drop-append}
use residue.Net.Url.{cut_protocol, or_end, position, of_rest, parse}
use residue.Prelude.{
  ℕ, suc, ◌+◌, ◌<◌, ◌≡◌, refl, ap, ◌∙◌, ◌≢◌, true, not, ◌&&◌, some, List, [], ◌∷◌, ◌++◌,
  append_assoc, arith, ltb, ◌==◌, length, take, drop, length-append, Text, codes, All-append,
}

abbrev pub protocol_end : Text
protocol_end = codes "://"

cut_protocol-append :
    (p r : Text) → Without b':' p → cut_protocol (p ++ (b':' ∷ b'/' ∷ b'/' ∷ r)) ≡ some (p, r)
unfolding cut_protocol
cut_protocol-append [] r h = refl
cut_protocol-append (c ∷ []) r h = ground arith
cut_protocol-append (c ∷ d ∷ []) r h = ground (arith, cut_protocol-append (d ∷ []) r h.1)
cut_protocol-append (c ∷ d ∷ e ∷ p) r h = ground (arith, cut_protocol-append (d ∷ e ∷ p) r h.1)

position-append : (c : ℕ) (s t : Text) → Without c s → position c (s ++ c ∷ t) ≡ length s
position-append c s t h = ap (or_end (s ++ c ∷ t)) (find_first_of-append c s t h)

-- An address with all its parts.
abbrev pub address : Text → Text → Text → Text → Text → Text
address protocol host port path query =
    protocol ++ (b':' ∷ b'/' ∷ b'/' ∷ ((host ++ b':' ∷ port) ++ (b'/' ∷ (path ++ b'?' ∷ query))))

drop-length {ℓ} : {A : Type ℓ} (s t : List A) → drop (length s) (s ++ t) ≡ t
drop-length [] t = refl
drop-length (x ∷ s) t = drop-length s t

of_rest-append :
    (protocol host port path query : Text)
    → Without b':' host
    → Without b'/' host
    → Without b'/' port
    → Without b'?' path
    → 0 < length port
    → of_rest protocol ((host ++ b':' ∷ port) ++ (b'/' ∷ (path ++ b'?' ∷ query)))
      ≡ record { protocol = protocol; host = host; port = port; path = b'/' ∷ path; query = query }
unfolding of_rest
of_rest-append protocol host port path query no_colon no_slash no_slash' no_mark some_port =
    rw
      (
        slash,
        whole,
        behind,
        colon,
        has_port,
        colon',
        port_behind,
        take-append host (b':' ∷ port),
        mark,
        take-append (b'/' ∷ path) (b'?' ∷ query),
      )
      (ap
        (λ q. record {
          protocol = protocol;
          host = host;
          port = port;
          path = b'/' ∷ path;
          query = q;
        })
        query_behind)
  where
    authority : Text
    authority = host ++ b':' ∷ port

    tail : Text
    tail = b'/' ∷ (path ++ b'?' ∷ query)

    slash : position b'/' (authority ++ tail) ≡ length authority
    slash =
        position-append b'/' authority (path ++ b'?' ∷ query)
          (All-append (λ x. x ≢ b'/') host (b':' ∷ port) no_slash (omega arith, no_slash'))

    whole : take (length authority) (authority ++ tail) ≡ authority
    whole = take-append authority tail

    behind : drop (length authority) (authority ++ tail) ≡ tail
    behind = drop-length authority tail

    colon : position b':' (authority ++ tail) ≡ length host
    colon =
        ap (position b':') (append_assoc host (b':' ∷ port) tail)
        ∙ position-append b':' host (port ++ tail) no_colon

    colon' : position b':' authority ≡ length host
    colon' = position-append b':' host port no_colon

    port_behind : drop (length host + 1) authority ≡ port
    port_behind =
        let e : length host + 1 ≡ suc (length host) = omega arith in
        ap (λ n. drop n authority) e ∙ drop-append host port b':'

    query_behind : drop (suc (length path) + 1) tail ≡ query
    query_behind =
        let e : suc (length path) + 1 ≡ suc (length (b'/' ∷ path)) = omega arith in
        ap (λ n. drop n tail) e ∙ drop-append (b'/' ∷ path) query b'?'

    mark : position b'?' tail ≡ suc (length path)
    mark = position-append b'?' (b'/' ∷ path) query (omega arith, no_mark)

    has_port :
        (not (length host + 1 == length (authority ++ tail))
          && ltb (length host + 1) (length authority))
        ≡ true
    has_port =
        ground (arith, length-append authority tail, length-append host (b':' ∷ port), some_port)

-- An address of a protocol, a host, a port, a path and a query is taken apart into these, whatever
-- the query holds: if the protocol and the host have no colon, the host and the port no slash, the
-- path no question mark, and the port is not empty.
pub parse-address :
    (protocol host port path query : Text)
    → Without b':' protocol
    → Without b':' host
    → Without b'/' host
    → Without b'/' port
    → Without b'?' path
    → 0 < length port
    → parse (address protocol host port path query)
      ≡ record { protocol = protocol; host = host; port = port; path = b'/' ∷ path; query = query }
unfolding parse
parse-address protocol host port path query no_colon no_colon' no_slash no_slash' no_mark
      some_port =
    rw
      (
        cut_protocol-append protocol ((host ++ b':' ∷ port) ++ (b'/' ∷ (path ++ b'?' ∷ query)))
            no_colon,
        parse,
      )
      (of_rest-append protocol host port path query no_colon' no_slash no_slash' no_mark some_port)
