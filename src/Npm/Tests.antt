-- ===== src/Npm/Tests.antt =====
-- A request with credentials to an npm proxy that forwards them, and a body that is rewritten.
use n0ding.Prelude.{
  pos, true, false, none, some, [], ◌∷◌, codes, eq_text, has_prefix, trim_right, ◌≡◌, refl,
}
use n0ding.Http.{get, values, lookup, canonical}
use n0ding.Cache.Commit.{Session}
use n0ding.Exchange.{Request, Incoming, answered, Env}
use n0ding.Npm.{Proxy, replace_all, replace_from}
use n0ding.Npm.Serve.{serve_http, rewritten}
use n0ding.Npm.Privacy.{IsUntouched, private_requests_keep_cache}

abbrev empty_session : Session
empty_session = record {
  store = record {
    root = codes "/cache";
    files = [];
    now = pos 10;
    bytes = pos 0;
    objects = pos 0;
    active_temps = [];
  };
  controller = none;
  reservation = none;
}

abbrev proxy : Proxy
proxy = record {
  name = codes "npm";
  path = codes "/npm/";
  upstream = codes "https://up";
  proxy_base_url = codes "http://me/npm";
  ttl = pos 1000;
  forward_authorization = true;
  stats = record { requests = 0; hits = 0; misses = 0; errors = 0; client_canceled = 0 };
  session = empty_session;
}

abbrev reply : Incoming
reply = record {
  status = pos 200;
  header = (codes "Content-Type", codes "application/json" ∷ []) ∷ [];
  body = record {
    chunks =
        record { data_bytes = codes "{}"; taken = 2; downstream_fails = false; cache_fails = false }
        ∷ [];
    fails = false;
  };
}

abbrev env : Env
env = record {
  platform = record {
    marshal = λ m. codes "{}";
    unmarshal = λ c. none;
    hash = λ k. codes "ab";
    fails = λ op path. false;
  };
  upstream = λ attempt method target header. answered reply;
  parse_url = λ url query. some url;
  sum = λ content. [];
  media_type = λ t. some t;
  canceled = false;
  done = false;
  hangup = none;
  chunks_of = λ content. [];
  free_bytes = none;
  body_suffix = codes "7";
  metadata_suffix = codes "8";
  meanwhile = λ s. s;
}

abbrev with_credentials : Request
with_credentials = record {
  method = codes "GET";
  url_path = codes "/npm/left-pad";
  escaped_path = codes "/npm/left-pad";
  raw_query = [];
  header = (codes "Authorization", codes "Bearer x" ∷ []) ∷ [];
}

has_credentials : eq_text (get with_credentials.header (codes "Authorization")) [] ≡ false
unfolding get values lookup canonical eq_text
has_credentials = refl

private_requests_keep_cache_example :
    IsUntouched env proxy
      (serve_http env with_credentials proxy
        (record { header = []; status = none; body = []; error = none })).0
private_requests_keep_cache_example =
    private_requests_keep_cache env with_credentials proxy
      (record { header = []; status = none; body = []; error = none }) refl has_credentials

rewritten_test : rewritten proxy (codes "{https://up/a}") ≡ codes "{http://me/npm/a}"
unfolding rewritten replace_all replace_from eq_text has_prefix trim_right
rewritten_test = refl
