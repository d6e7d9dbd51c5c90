-- ===== src/Pypi/Samples.antt =====
-- Data for tests: a proxy of a package index at one upstream, a link to a file, and an upload.
use n0ding.Prelude.{
  pos, true, false, ◌||◌, Option, none, some, List, [], ◌∷◌, ◌++◌, Text, codes, eq_text,
  if◌then◌else◌, ◌==◌, split, cut,
}
use n0ding.Http.{Url}
use n0ding.Cache.Files.{FilePath, File, Files}
use n0ding.Exchange.{Request, no_response, Env, Response}
use n0ding.Pypi.Urls.{Urls, Query}
use n0ding.Pypi.Proxy.{Proxy}
use n0ding.Pypi.Links.{file_query}
use n0ding.Pypi.Disk.{Disk, Upload}
use n0ding.Pypi.Serve.{World}

abbrev pub url_of : Text → Text → Text → Url
url_of host port path = record {
  scheme = codes "https";
  user = none;
  host = host;
  hostname = host;
  port = port;
  path = path;
  raw_path = [];
  raw_query = [];
  fragment = [];
}

abbrev pub upstream : Url
upstream = url_of (codes "pypi") [] (codes "/simple/")

abbrev pub with_port : Url
with_port = url_of (codes "PyPI") (codes "443") []

-- A codec for queries of plain texts.
abbrev pub plain : Text → Text
plain [] = []
plain (c ∷ s) = let rest = plain s in if c == b'?' || c == b'#' then rest else c ∷ rest

abbrev pub written : Query → Text
written [] = []
written ((k, []) ∷ q) = written q
written ((k, v ∷ vs) ∷ q) = k ++ b'=' ∷ v ++ b'&' ∷ written q

abbrev pub entry_of : Option (Text × Text) → Query
entry_of none = []
entry_of (some (k, v)) = (k, v ∷ []) ∷ []

abbrev pub pieces : List Text → Query
pieces [] = []
pieces (t ∷ ts) = entry_of (cut b'=' t) ++ pieces ts

abbrev pub file : Url
file = url_of (codes "files") [] (codes "/a.whl")

abbrev pub shown : Url → Text
shown u = u.scheme ++ codes "://" ++ u.host ++ u.path

abbrev pub parsed : Text → Option Url
parsed t = if eq_text t (codes "https://files/a.whl") then some file else none

abbrev pub urls : Urls
urls = record {
  parse = parsed;
  show = shown;
  resolve = λ page link. link;
  escaped_path = λ u. u.path;
  path_escape = plain;
  path_unescape = λ t. some t;
  parse_query = λ t. some (pieces (split b'&' t));
  query_of = λ t. pieces (split b'&' t);
  encode_query = λ q. plain (written q);
}

abbrev pub proxy : Proxy
proxy = record {
  name = codes "pypi";
  path = codes "/simple/";
  file_path = codes "/files/";
  upload_path = codes "/legacy/";
  package_path = codes "/packages/";
  upstream = upstream;
  proxy_simple_base_url = codes "http://me/simple";
  proxy_file_base_url = codes "http://me/files";
  proxy_package_base_url = codes "http://me/packages";
  ttl = pos 1000;
  forward_authorization = false;
  publish_token = codes "secret";
  allowed_file_origins = codes "https://pypi:443" ∷ codes "https://files:443" ∷ [];
  local_path = codes "/private";
  stats = record {
    requests = 0;
    hits = 0;
    misses = 0;
    errors = 0;
    client_canceled = 0;
    range_requests = 0;
  };
  session = record {
    store = record {
      root = codes "/cache";
      files = [];
      now = pos 10;
      bytes = pos 0;
      objects = pos 0;
      active_temps = [];
    };
    controller = none;
    reservation = none;
  };
  disk = [];
}

abbrev pub digest : Text
digest = codes "000102030405060708090a0b0c0d0e0f000102030405060708090a0b0c0d0e0f"

abbrev pub fragment : Text
fragment = codes "sha256=" ++ digest

abbrev pub file_request : Request
file_request = record {
  method = codes "GET";
  url_path = codes "/files/a.whl";
  escaped_path = codes "/files/a.whl";
  raw_query = urls.encode_query (file_query urls file fragment);
  header = [];
}

abbrev pub disk : Disk
disk = record {
  fails = λ call path. false;
  now = pos 5;
  suffix = codes "7";
  sum = λ content. content;
  marshal = λ pkg. some pkg.hash;
  unmarshal = λ content. none;
  others = λ g. g;
  leftover = [];
}

abbrev pub release : FilePath
release = record { dir = codes "/private/pkg"; name = codes "pkg-1.zip" }

abbrev pub stored_file : File
stored_file = record { content = codes "old"; mod_time = pos 1; regular = true }

abbrev pub upload : Upload
upload = record { content = codes "new"; fails = false }

abbrev pub before : Files
before = (release, stored_file) ∷ []

abbrev pub env : Env
env = record {
  platform = record {
    marshal = λ m. codes "{}";
    unmarshal = λ c. none;
    hash = λ k. codes "ab";
    fails = λ op path. false;
  };
  upstream = λ attempt method target header. no_response;
  parse_url = λ url query. some url;
  sum = λ content. [];
  media_type = λ t. some t;
  canceled = false;
  done = false;
  hangup = none;
  chunks_of = λ content. [];
  free_bytes = none;
  body_suffix = codes "7";
  metadata_suffix = codes "8";
  meanwhile = λ s. s;
}

abbrev pub world : World
world = record {
  env = env;
  urls = urls;
  codecs = record {
    decode_json = λ content. none;
    marshal_json = λ v. none;
    parse_html = λ content. none;
    render_html = λ n. none;
    decode_base64 = λ t. none;
    serve_content = λ q name time content w. w;
  };
  disk = disk;
  posted = record {
    content_length = pos 3;
    parse_form = λ limit. some (record {
      name = codes "Pkg";
      requires_python = [];
      content = some (codes "pkg-2.zip", upload);
    });
  };
}

abbrev pub post : Request
post = record {
  method = codes "POST";
  url_path = codes "/legacy/";
  escaped_path = codes "/legacy/";
  raw_query = [];
  header = (codes "Authorization", codes "Bearer secret" ∷ []) ∷ [];
}

abbrev pub response : Response
response = record { header = []; status = none; body = []; error = none }
