-- ===== src/HttpPolicy/Tests.antt =====
-- Headers and redirects of a small exchange.
use n0ding.Prelude.{
  ◌<◌, true, false, not, ◌&&◌, ◌||◌, if◌then◌else◌, Option, none, some, [], ◌∷◌, ◌++◌, codes,
  eq_text, to_lower, equal_fold, mem_text, length, ◌≡◌, refl, ◌⊎◌, ◌↔◌,
}
use n0ding.Http.{Header, Url, lookup}
use n0ding.HttpPolicy.{
  is_hop_by_hop, blocked_request_header, authorization, named_connection_headers,
  forward_request_headers, response_headers, cache_metadata_headers,
}
use n0ding.HttpPolicy.Filters.{
  field_values, not_persisted, forward_request_headers_lem, response_headers_lem,
  cache_metadata_headers_lem,
}
use n0ding.HttpPolicy.Directives.{response_allows_storage}
use n0ding.HttpPolicy.Storable.{IsStorable, response_allows_storage_iff}
use n0ding.HttpPolicy.Redirect.{
  Request, accepted, check_redirect, effective_port, same_origin, sanitize_redirect_request,
  has_userinfo, comes_from_elsewhere, last_url,
}
use n0ding.HttpPolicy.SameOrigin.{IsSameOrigin, same_origin_iff}
use n0ding.HttpPolicy.Origin.{followed_redirect_is_safe, plain_redirect}

abbrev sent : Header
sent =
    (codes "Accept", codes "*/*" ∷ [])
    ∷ (codes "Cookie", codes "a=b" ∷ [])
    ∷ (authorization, codes "Bearer x" ∷ [])
    ∷ (codes "Connection", codes "close" ∷ [])
    ∷ []

abbrev got : Header
got =
    (codes "Set-Cookie", codes "s=1" ∷ [])
    ∷ (codes "Etag", codes "w" ∷ [])
    ∷ (codes "Cache-Control", codes "public" ∷ [])
    ∷ []

forward_request_headers_lem_example :
    lookup (codes "Cookie") (forward_request_headers [] sent true)
    ≡ lookup (codes "Cookie") []
      ++ (if is_hop_by_hop (codes "Cookie")
            || (mem_text (codes "Cookie") (named_connection_headers sent)
                || (blocked_request_header (codes "Cookie")
                    || (eq_text (codes "Cookie") authorization && not true)))
          then []
          else field_values (codes "Cookie") sent)
forward_request_headers_lem_example = forward_request_headers_lem [] sent true (codes "Cookie")

response_headers_lem_example : lookup (codes "Etag") (response_headers got) ≡ (
    if is_hop_by_hop (codes "Etag") || mem_text (codes "Etag") (named_connection_headers got)
    then []
    else field_values (codes "Etag") got)
response_headers_lem_example = response_headers_lem got (codes "Etag")

cache_metadata_headers_lem_example : lookup (codes "Set-Cookie") (cache_metadata_headers got) ≡ (
    if mem_text (codes "Set-Cookie") not_persisted
      || (is_hop_by_hop (codes "Set-Cookie")
          || mem_text (codes "Set-Cookie") (named_connection_headers got))
    then []
    else field_values (codes "Set-Cookie") got)
cache_metadata_headers_lem_example = cache_metadata_headers_lem got (codes "Set-Cookie")

response_allows_storage_iff_example :
    (response_allows_storage sent got (codes "Accept" ∷ []) ≡ true)
    ↔ IsStorable sent got (codes "Accept" ∷ [])
response_allows_storage_iff_example = response_allows_storage_iff sent got (codes "Accept" ∷ [])

abbrev registry : Url
registry = record {
  scheme = codes "https";
  user = none;
  host = codes "registry.example";
  hostname = codes "registry.example";
  port = [];
  path = codes "/left-pad";
  raw_path = [];
  raw_query = [];
  fragment = [];
}

abbrev elsewhere : Url
elsewhere = record registry { user = some (codes "me"); hostname = codes "cdn.example" }

abbrev redirected : Request
redirected = record { url = some elsewhere; header = sent }

followed :
    check_redirect none redirected (some registry ∷ [])
    ≡ accepted (sanitize_redirect_request redirected (some registry ∷ []))
unfolding check_redirect
followed = refl

followed_redirect_is_safe_example :
    (has_userinfo (sanitize_redirect_request redirected (some registry ∷ [])).url ≡ false)
    × ((blocked_request_header (codes "Cookie") ≡ false)
        ⊎ (field_values
              (codes "Cookie")
              (sanitize_redirect_request redirected (some registry ∷ [])).header
            ≡ []))
    × ((comes_from_elsewhere
            (last_url (some registry ∷ []))
            (sanitize_redirect_request redirected (some registry ∷ [])).url
          ≡ false)
        ⊎ (field_values authorization
              (sanitize_redirect_request redirected (some registry ∷ [])).header
            ≡ []))
followed_redirect_is_safe_example =
    followed_redirect_is_safe none redirected (some registry ∷ [])
      (sanitize_redirect_request redirected (some registry ∷ [])) (codes "Cookie") followed

abbrev with_port : Url
with_port = record registry { port = codes "443" }

same_origin_iff_example :
    (same_origin (some registry) (some with_port) ≡ true)
    ↔ IsSameOrigin (some registry) (some with_port)
same_origin_iff_example = same_origin_iff (some registry) (some with_port)

-- The port of https may be written out; another port is another origin.
same_origin_test : same_origin (some registry) (some with_port) ≡ true
unfolding same_origin effective_port equal_fold eq_text to_lower
same_origin_test = refl

other_port_test : same_origin (some registry) (some (record registry { port = codes "80" })) ≡ false
unfolding same_origin effective_port equal_fold eq_text to_lower
other_port_test = refl

abbrev at_home : Request
at_home = record { url = some with_port; header = sent }

stays :
    check_redirect none at_home (some registry ∷ [])
    ≡ accepted (sanitize_redirect_request at_home (some registry ∷ []))
unfolding check_redirect
stays = refl

same_home : comes_from_elsewhere (last_url (some registry ∷ [])) (some with_port) ≡ false
unfolding last_url same_origin equal_fold effective_port
same_home = refl

plain_redirect_example :
    (length {A = Option Url} (some registry ∷ []) < 10)
    × ((sanitize_redirect_request at_home (some registry ∷ [])).url ≡ some with_port)
    × (field_values authorization (sanitize_redirect_request at_home (some registry ∷ [])).header
        ≡ (if blocked_request_header authorization then [] else field_values authorization sent))
plain_redirect_example =
    plain_redirect at_home (some registry ∷ [])
      (sanitize_redirect_request at_home (some registry ∷ [])) authorization stays refl same_home
