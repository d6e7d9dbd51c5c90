-- ===== src/HttpPolicy.antt =====
-- internal/httppolicy/policy.go: which header fields pass to the upstream, to the client and to the
-- cache. The Go map that namedConnectionHeaders returns is the list of its keys.
pub mod Logging
pub mod Filters
pub mod Directives
pub mod Storable
pub mod Redirect
pub mod SameOrigin
pub mod Origin
mod Tests
use n0ding.Prelude.{
  Bool, true, false, not, ◌&&◌, ◌||◌, List, [], ◌∷◌, ◌++◌, Text, codes, eq_text, mem_text, split,
  trim_space, if◌then◌else◌, Option, none, some,
}
use n0ding.Http.{Header, Url, canonical, values, add_all, del, lookup, delete}

abbrev hop_by_hop : List Text
hop_by_hop =
    codes "Connection"
    ∷ codes "Keep-Alive"
    ∷ codes "Proxy-Authenticate"
    ∷ codes "Proxy-Authorization"
    ∷ codes "Proxy-Connection"
    ∷ codes "Te"
    ∷ codes "Trailer"
    ∷ codes "Transfer-Encoding"
    ∷ codes "Upgrade"
    ∷ []

unfoldable pub is_hop_by_hop : Text → Bool
unfolding mem_text
is_hop_by_hop name = mem_text name hop_by_hop

abbrev blocked : List Text
blocked =
    codes "Cookie"
    ∷ codes "Cookie2"
    ∷ codes "Forwarded"
    ∷ codes "Host"
    ∷ codes "Npm-Otp"
    ∷ codes "Proxy-Authorization"
    ∷ codes "X-Forwarded-For"
    ∷ codes "X-Forwarded-Host"
    ∷ codes "X-Forwarded-Port"
    ∷ codes "X-Forwarded-Proto"
    ∷ codes "X-Npm-Otp"
    ∷ codes "X-Registry-Auth"
    ∷ codes "X-Registry-Config"
    ∷ []

unfoldable pub blocked_request_header : Text → Bool
unfolding mem_text
blocked_request_header name = mem_text name blocked

abbrev pub sensitive_response_headers : List Text
sensitive_response_headers =
    codes "Authentication-Info"
    ∷ codes "Authorization"
    ∷ codes "Cookie"
    ∷ codes "Proxy-Authentication-Info"
    ∷ codes "Proxy-Authorization"
    ∷ codes "Set-Cookie"
    ∷ codes "Set-Cookie2"
    ∷ codes "WWW-Authenticate"
    ∷ []

abbrev pub authorization : Text
authorization = codes "Authorization"

-- The inner loop over the names of one value.
named_in : List Text → List Text
named_in [] = []
named_in (name ∷ names) =
    let rest = named_in names in
    let key = canonical (trim_space name) in if eq_text key [] then rest else key ∷ rest

named_from : List Text → List Text
unfolding named_in
named_from [] = []
named_from (value ∷ vs) = named_in (split b',' value) ++ named_from vs

unfoldable pub named_connection_headers : Header → List Text
unfolding named_from
named_connection_headers header = named_from (values header (codes "Connection"))

-- The two tests that `continue` in the loop of ForwardRequestHeaders.
unfoldable pub is_dropped : List Text → Bool → Text → Bool
is_dropped named forward_authorization key =
    is_hop_by_hop key
    || (mem_text key named
        || (blocked_request_header key || (eq_text key authorization && not forward_authorization)))

unfoldable pub forward_from : List Text → Bool → Header → Header → Header
forward_from named fa [] target = target
forward_from named fa ((name, vs) ∷ source) target =
    let key = canonical name in
    forward_from named fa source (if is_dropped named fa key then target else add_all key vs target)

unfoldable pub forward_request_headers : Header → Header → Bool → Header
unfolding forward_from is_dropped
forward_request_headers target source forward_authorization =
    forward_from (named_connection_headers source) forward_authorization source target

unfoldable pub response_from : List Text → Header → Header → Header
response_from named [] target = target
response_from named ((name, vs) ∷ source) target =
    let key = canonical name in
    response_from named source
      (if is_hop_by_hop key || mem_text key named then target else add_all key vs target)

unfoldable pub response_headers : Header → Header
unfolding response_from
response_headers source = response_from (named_connection_headers source) source []

unfoldable pub del_all : List Text → Header → Header
del_all [] h = h
del_all (name ∷ names) h = del_all names (del name h)

unfoldable pub cache_metadata_headers : Header → Header
unfolding del_all
cache_metadata_headers source =
    del (codes "X-N0ding-Cache")
      (del (codes "Age") (del_all sensitive_response_headers (response_headers source)))

unfoldable pub copy_headers : Header → Header → Header
copy_headers target [] = target
copy_headers target ((name, vs) ∷ source) = copy_headers (add_all name vs (del name target)) source
