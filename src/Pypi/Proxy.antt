-- ===== src/Pypi/Proxy.antt =====
-- internal/pypiproxy/proxy.go: Options, Proxy and New. The session is the cache store with the
-- controller that it shares with the private index, and no reservation; `disk` holds the private files.
use n0ding.Prelude.{
  ℕ, ℤ, Bool, not, ◌&&◌, Option, none, some, List, [], ◌∷◌, ◌++◌, Text, codes, eq_text,
  if◌then◌else◌, mem_text, has_suffix, trim_suffix, trim_right, ◌==◌, String,
}
use n0ding.Http.{Url}
use n0ding.Cache.Files.{Files}
use n0ding.Cache.Commit.{Session}
use n0ding.Exchange.{Env, Response, bump, http_error}
use n0ding.Pypi.Origins.{origin_key}
use n0ding.Pypi.Urls.{Urls}

pub record Counters : Type 0 where
  pub requests : ℕ
  pub hits : ℕ
  pub misses : ℕ
  pub errors : ℕ
  pub client_canceled : ℕ
  pub range_requests : ℕ

pub record Proxy : Type 0 where
  pub name : Text
  pub path : Text
  pub file_path : Text
  pub upload_path : Text
  pub package_path : Text
  pub upstream : Url
  pub proxy_simple_base_url : Text
  pub proxy_file_base_url : Text
  pub proxy_package_base_url : Text
  pub ttl : ℤ
  pub forward_authorization : Bool
  pub publish_token : Text
  pub allowed_file_origins : List Text
  pub local_path : Text
  pub stats : Counters
  pub session : Session
  pub disk : Files

pub record Options : Type 0 where
  pub name : Text
  pub path : Text
  pub upstream : Text
  pub public_base_url : Text
  pub ttl : ℤ
  pub forward_authorization : Bool
  pub publish_token : Text
  pub allowed_file_origins : List Text
  pub store : Option Session
  pub local_path : Text

abbrev is_absolute : Url → Bool
is_absolute u = not (eq_text u.scheme []) && not (eq_text u.host [])

abbrev cons_key : Option Url → Option (List Text) → Option (List Text)
cons_key none keys = none
cons_key (some u) none = none
cons_key (some u) (some keys) = if is_absolute u then some (origin_key u ∷ keys) else none

-- The loop over AllowedFileOrigins: `none` for its error.
unfoldable pub origin_keys : Urls → List Text → Option (List Text)
origin_keys urls [] = some []
origin_keys urls (origin ∷ origins) =
    let rest = origin_keys urls origins in cons_key (urls.parse origin) rest

abbrev pub trim_slashes : Text → Text
trim_slashes s = trim_right (λ c. c == b'/') s

abbrev zero_counters : Counters
zero_counters = record {
  requests = 0;
  hits = 0;
  misses = 0;
  errors = 0;
  client_canceled = 0;
  range_requests = 0;
}

abbrev beside : Options → String → Text
beside o name = trim_suffix o.path (codes "simple/") ++ codes name

-- The URL of a path of the proxy, without the slash at its end.
abbrev public_url : Options → Text → Text
public_url o path = trim_slashes o.public_base_url ++ trim_suffix path (codes "/")

abbrev built : Options → Url → Session → Files → List Text → Proxy
built o upstream session disk keys = record {
  name = o.name;
  path = o.path;
  file_path = beside o "files/";
  upload_path = beside o "legacy/";
  package_path = beside o "packages/";
  upstream = upstream;
  proxy_simple_base_url = public_url o o.path;
  proxy_file_base_url = public_url o (beside o "files/");
  proxy_package_base_url = public_url o (beside o "packages/");
  ttl = o.ttl;
  forward_authorization = o.forward_authorization;
  publish_token = o.publish_token;
  allowed_file_origins = origin_key upstream ∷ keys;
  local_path = o.local_path;
  stats = zero_counters;
  session = session;
  disk = disk;
}

abbrev with_keys : Options → Url → Session → Files → Option (List Text) → Option Proxy
with_keys o upstream session disk none = none
with_keys o upstream session disk (some keys) = some (built o upstream session disk keys)

abbrev with_store : Urls → Bool → Files → Options → Url → Option Session → Option Proxy
with_store urls made disk o upstream none = none
with_store urls made disk o upstream (some session) =
    let proxy = with_keys o upstream session disk (origin_keys urls o.allowed_file_origins) in
    if not (eq_text o.publish_token []) && eq_text o.local_path []
    then none
    else if not (eq_text o.local_path []) && not made
    then none
    else proxy

abbrev with_upstream : Urls → Bool → Files → Options → Option Url → Option Proxy
with_upstream urls made disk o none = none
with_upstream urls made disk o (some upstream) =
    let proxy = with_store urls made disk o upstream o.store in
    if not (is_absolute upstream)
    then none
    else if not (has_suffix o.path (codes "/simple/"))
    then none
    else proxy

-- New, given whether the directory of the private index can be made, and what it holds.
unfoldable pub new_proxy : Urls → Bool → Files → Options → Option Proxy
unfolding origin_keys
new_proxy urls made disk o = with_upstream urls made disk o (urls.parse o.upstream)

unfoldable pub file_origin_allowed : Proxy → Url → Bool
file_origin_allowed p target = mem_text (origin_key target) p.allowed_file_origins

abbrev count_error : Proxy → Proxy
count_error p = record p { stats = record p.stats { errors = bump p.stats.errors } }

abbrev count_canceled : Proxy → Proxy
count_canceled p = record p {
  stats = record p.stats { client_canceled = bump p.stats.client_canceled };
}

abbrev pub count_request : Proxy → Proxy
count_request p = record p { stats = record p.stats { requests = bump p.stats.requests } }

abbrev pub count_hit : Proxy → Proxy
count_hit p = record p { stats = record p.stats { hits = bump p.stats.hits } }

abbrev pub count_miss : Proxy → Proxy
count_miss p = record p { stats = record p.stats { misses = bump p.stats.misses } }

abbrev pub count_range : Proxy → Proxy
count_range p = record p { stats = record p.stats { range_requests = bump p.stats.range_requests } }

unfoldable pub fail : Env → ℤ → Text → Proxy → Response → Proxy × Response
fail env status message p w =
    if env.canceled then (count_canceled p, w) else (count_error p, http_error status message w)

unfoldable pub record_stream_error : Env → Proxy → Proxy
record_stream_error env p = if env.canceled then count_canceled p else count_error p
