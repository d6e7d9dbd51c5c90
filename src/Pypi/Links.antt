-- ===== src/Pypi/Links.antt =====
-- internal/pypiproxy/proxy.go: links to pages of the index and to files, from the upstream's to the
-- proxy's, and back from a request to its target.
use n0ding.Prelude.{
  Bool, not, ◌&&◌, ◌||◌, Option, none, some, is_some, [], ◌∷◌, ◌++◌, Text, codes, eq_text,
  if◌then◌else◌, ◌==◌, length, to_lower, trim_space, has_prefix, has_suffix, trim_prefix,
}
use n0ding.Hex.{decode_hex}
use n0ding.Http.{Url}
use n0ding.Exchange.{Request}
use n0ding.Pypi.Names.{ensure_trailing_slash}
use n0ding.Pypi.Origins.{same_origin}
use n0ding.Pypi.Urls.{Urls, Query, query_get, query_set, path_base}
use n0ding.Pypi.Proxy.{Proxy, trim_slashes, file_origin_allowed}

-- A text of 64 hexadecimal digits, or the empty text.
unfoldable pub checked_sha : Text → Text
unfolding decode_hex
checked_sha sha =
    let decoded = decode_hex sha in
    if not (length sha == 64) then [] else if is_some decoded then sha else []

abbrev pub sha_in : Option Query → Text
sha_in none = []
sha_in (some values) = checked_sha (to_lower (trim_space (query_get values (codes "sha256"))))

unfoldable pub sha256_from_fragment : Urls → Text → Text
unfolding checked_sha
sha256_from_fragment urls fragment = sha_in (urls.parse_query fragment)

abbrev upstream_path : Urls → Proxy → Text
upstream_path urls p = ensure_trailing_slash (urls.escaped_path p.upstream)

unfoldable pub is_simple_url : Urls → Proxy → Url → Bool
is_simple_url urls p target =
    same_origin target p.upstream
    && has_prefix (ensure_trailing_slash (urls.escaped_path target)) (upstream_path urls p)

abbrev pub unless_empty : Text → Text → Text
unless_empty mark [] = []
unless_empty mark (c ∷ t) = mark ++ c ∷ t

unfoldable pub proxy_simple_url : Urls → Proxy → Url → Text → Text
proxy_simple_url urls p target fragment =
    p.proxy_simple_base_url
    ++ (codes "/"
        ++ (trim_prefix (urls.escaped_path target) (upstream_path urls p)
            ++ (unless_empty (codes "?") target.raw_query ++ unless_empty (codes "#") fragment)))

abbrev pub without_fragment : Url → Url
without_fragment u = record u { fragment = [] }

-- The query of a file link.
unfoldable pub file_query : Urls → Url → Text → Query
file_query urls target fragment =
    let sha = sha256_from_fragment urls fragment in
    let values = (codes "url", urls.show (without_fragment target) ∷ []) ∷ [] in
    if not (eq_text sha []) then query_set (codes "sha256") sha values else values

unfoldable pub visible_name : Url → Text
visible_name target =
    let filename = path_base target.path in
    if eq_text filename (codes ".") || (eq_text filename (codes "/") || eq_text filename [])
    then codes "artifact"
    else filename

unfoldable pub proxy_file_url : Urls → Proxy → Url → Text → Text
unfolding file_query visible_name
proxy_file_url urls p target fragment =
    p.proxy_file_base_url
    ++ (codes "/"
        ++ (urls.path_escape (visible_name target)
            ++ (codes "?"
                ++ (urls.encode_query (file_query urls target fragment)
                    ++ unless_empty (codes "#") fragment))))

abbrev rewrite_resolved : Urls → Proxy → Text → Url → Text
rewrite_resolved urls p raw resolved =
    let target = without_fragment resolved in
    if is_simple_url urls p target
    then proxy_simple_url urls p target resolved.fragment
    else if file_origin_allowed p target
    then proxy_file_url urls p target resolved.fragment
    else raw

abbrev rewrite_parsed : Urls → Proxy → Text → Url → Option Url → Text
rewrite_parsed urls p raw page none = raw
rewrite_parsed urls p raw page (some link) =
    if eq_text link.scheme (codes "mailto") || eq_text link.scheme (codes "data")
    then raw
    else rewrite_resolved urls p raw (urls.resolve page link)

unfoldable pub rewrite_href : Urls → Proxy → Text → Url → Text
unfolding is_simple_url proxy_simple_url proxy_file_url
rewrite_href urls p raw page = rewrite_parsed urls p raw page (urls.parse (trim_space raw))

abbrev relocated : Urls → Proxy → Text → Url → Text
relocated urls p raw resolved =
    if not (same_origin resolved p.upstream)
    then raw
    else if not
        (has_prefix (ensure_trailing_slash (urls.escaped_path resolved)) (upstream_path urls p))
    then raw
    else proxy_simple_url urls p resolved resolved.fragment

abbrev located : Urls → Proxy → Text → Url → Option Url → Text
located urls p raw page none = []
located urls p raw page (some location) = relocated urls p raw (urls.resolve page location)

unfoldable pub rewritten_location : Urls → Proxy → Text → Url → Text
unfolding proxy_simple_url
rewritten_location urls p raw page =
    if eq_text raw [] then [] else located urls p raw page (urls.parse raw)

abbrev with_query : Request → Option Url → Option Url
with_query q none = none
with_query q (some target) = some (record target { raw_query = q.raw_query })

unfoldable pub simple_target_url : Urls → Proxy → Request → Option Url
simple_target_url urls p q = with_query q (
    urls.parse
      (trim_slashes (urls.show p.upstream) ++ (codes "/" ++ trim_prefix q.escaped_path p.path)))

abbrev pub metadata_suffix : Text
metadata_suffix = codes ".metadata"

abbrev pub is_metadata : Text → Bool
is_metadata path = has_suffix (path_base path) metadata_suffix

-- The suffix of the request goes to the target.
abbrev pub sidecar : Url → Url
sidecar u = record u {
  path = u.path ++ metadata_suffix;
  raw_path = if eq_text u.raw_path [] then u.raw_path else u.raw_path ++ metadata_suffix;
}

abbrev pub with_sha : Text → Url → Option (Url × Text)
with_sha sha target =
    let decoded = decode_hex sha in
    if eq_text sha []
    then some (target, [])
    else if not (length sha == 64)
    then none
    else if is_some decoded
    then some (target, sha)
    else none

abbrev pub admitted : Request → Text → Url → Option (Url × Text)
admitted q sha target =
    if is_metadata q.url_path
    then some (if is_metadata target.path then target else sidecar target, [])
    else if is_metadata target.path
    then some (target, [])
    else with_sha (to_lower (trim_space sha)) target

-- The tests on the URL in the query.
abbrev pub is_fetchable : Proxy → Url → Bool
is_fetchable p target =
    not (eq_text target.scheme [])
    && (not (eq_text target.host [])
        && ((eq_text target.scheme (codes "http") || eq_text target.scheme (codes "https"))
            && (not (is_some target.user)
                && (eq_text target.fragment [] && file_origin_allowed p target))))

abbrev checked : Proxy → Request → Text → Option Url → Option (Url × Text)
checked p q sha none = none
checked p q sha (some target) = if is_fetchable p target then admitted q sha target else none

-- fileTargetURL: the target and the expected sum, or `none` for an error.
unfoldable pub file_target_url : Urls → Proxy → Request → Option (Url × Text)
unfolding path_base decode_hex
file_target_url urls p q =
    let query = urls.query_of q.raw_query in
    let raw = query_get query (codes "url") in
    if eq_text raw [] then none else checked p q (query_get query (codes "sha256")) (urls.parse raw)
