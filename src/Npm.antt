-- ===== src/Npm.antt =====
-- internal/npmproxy/proxy.go: the proxy of an npm registry. A response body in JSON is read whole, so
-- that the URLs of the upstream in it become those of the proxy.
pub mod Serve
pub mod Privacy
pub mod Status
mod Tests
use n0ding.Prelude.{
  ℕ, zero, suc, ◌+◌, ◌-◌, ℤ, pos, ◌-ℤ◌, ◌/ℤ◌, Bool, true, false, not, ◌&&◌, ◌||◌, Option, none,
  some, List, [], ◌∷◌, ◌++◌, Text, codes, eq_text, if◌then◌else◌, length, leb, ◌==◌, to_lower,
  contains_text, has_prefix, has_suffix, trim_prefix, trim_suffix, trim_right,
}
use n0ding.Http.{Header, get, set, del}
use n0ding.HttpPolicy.{
  forward_request_headers, response_headers, cache_metadata_headers, copy_headers,
}
use n0ding.HttpPolicy.Directives.{response_allows_storage}
use n0ding.Cache.Naming.{Metadata}
use n0ding.Cache.Store
use n0ding.Cache.Store.{Entry, eq_ℤ}
use n0ding.Cache.Writer.{sink, copy, bytes_of}
use n0ding.Cache.Commit.{Session, Put, stored, bypassed, failed}
use n0ding.Exchange.{
  Request, Incoming, Reply, not_created, no_response, answered, fetch, Env, Response, bump,
  http_error, sent, found_entry, format_int, read_body, put_entry, new_metadata, source_of,
  length_header,
}

pub record Counters : Type 0 where
  pub requests : ℕ
  pub hits : ℕ
  pub misses : ℕ
  pub errors : ℕ
  pub client_canceled : ℕ

-- `upstream` is what String() gives for the URL. The session is the store with the controller that it
-- may share, and no reservation.
pub record Proxy : Type 0 where
  pub name : Text
  pub path : Text
  pub upstream : Text
  pub proxy_base_url : Text
  pub ttl : ℤ
  pub forward_authorization : Bool
  pub stats : Counters
  pub session : Session

-- The options that New looks at; `store` is nil for `none`.
pub record Options : Type 0 where
  pub name : Text
  pub path : Text
  pub upstream : Text
  pub public_base_url : Text
  pub ttl : ℤ
  pub forward_authorization : Bool
  pub store : Option Session

abbrev pub trim_slashes : Text → Text
trim_slashes s = trim_right (λ c. c == b'/') s

abbrev with_options : Options → Option Text → Option Session → Option Proxy
with_options o none store = none
with_options o (some upstream) none = none
with_options o (some upstream) (some session) = some (record {
  name = o.name;
  path = o.path;
  upstream = upstream;
  proxy_base_url = trim_slashes o.public_base_url ++ trim_suffix o.path (codes "/");
  ttl = o.ttl;
  forward_authorization = o.forward_authorization;
  stats = record { requests = 0; hits = 0; misses = 0; errors = 0; client_canceled = 0 };
  session = session;
})

-- New, given url.Parse followed by String().
unfoldable pub new_proxy : (Text → Option Text) → Options → Option Proxy
new_proxy parse o = with_options o (parse o.upstream) o.store

abbrev count_error : Proxy → Proxy
count_error p = record p { stats = record p.stats { errors = bump p.stats.errors } }

abbrev count_canceled : Proxy → Proxy
count_canceled p = record p {
  stats = record p.stats { client_canceled = bump p.stats.client_canceled };
}

unfoldable pub fail : Env → ℤ → Text → Proxy → Response → Proxy × Response
fail env status message p w =
    if env.canceled then (count_canceled p, w) else (count_error p, http_error status message w)

unfoldable pub record_stream_error : Env → Proxy → Proxy
record_stream_error env p = if env.canceled then count_canceled p else count_error p

unfoldable pub target_url : Env → Proxy → Request → Option Text
target_url env p q =
    env.parse_url (trim_slashes p.upstream ++ (codes "/" ++ trim_prefix q.escaped_path p.path))
      q.raw_query

unfoldable pub cache_key : Text → Text → Text → Text
cache_key name target accept = name ++ (codes "\n" ++ (target ++ (codes "\naccept:" ++ accept)))

unfoldable pub lookup : Env → Text → Proxy → Proxy × Option Entry
lookup env key p =
    let (s, outcome) = Store.lookup env.platform key p.ttl p.session.store in
    (record p { session = record p.session { store = s } }, found_entry outcome)

unfoldable pub serve_hit : Request → Env → Entry → Proxy → Response → Proxy × Response
unfolding format_int
serve_hit q env entry p w =
    let m = entry.metadata in
    let w' = record w {
      header = set (codes "Content-Length") (format_int m.content_bytes) (
          set (codes "Age") (format_int ((p.session.store.now -ℤ m.stored_at) /ℤ 1000000000))
            (set (codes "X-N0ding-Cache") (codes "HIT") (copy_headers w.header m.header)));
      status = some m.status;
    } in
    if eq_text q.method (codes "HEAD")
    then (p, w')
    else (p, record w' { body = sent env entry.body })

abbrev json_type : Text → Option Text → Bool
json_type content_type none = contains_text (to_lower content_type) (codes "json")
json_type content_type (some t) =
    eq_text t (codes "application/json") || has_suffix t (codes "+json")

unfoldable pub is_json : Env → Text → Bool
is_json env content_type = json_type content_type (env.media_type content_type)

-- bytes.ReplaceAll for an `old` that is not empty; the number counts what is still to be skipped.
unfoldable pub replace_from : ℕ → List ℕ → List ℕ → List ℕ → List ℕ
replace_from skip old new [] = []
replace_from (suc skip) old new (c ∷ s) = replace_from skip old new s
replace_from zero old new (c ∷ s) =
    let behind = replace_from (length old - 1) old new s in
    let rest = replace_from 0 old new s in
    if has_prefix (c ∷ s) old then new ++ behind else c ∷ rest

-- For an empty `old`, on ASCII: `new` stands before every byte and at the end.
abbrev spread : List ℕ → List ℕ → List ℕ
spread new [] = new
spread new (c ∷ s) = new ++ c ∷ spread new s

unfoldable pub replace_all : List ℕ → List ℕ → List ℕ → List ℕ
unfolding replace_from
replace_all old new s = if eq_text old [] then spread new s else replace_from 0 old new s
