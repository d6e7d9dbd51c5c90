-- ===== src/Pypi/Serve.antt =====
-- internal/pypiproxy/proxy.go: ServeHTTP, hits, and what is done with a miss of a page or of a file.
use n0ding.Prelude.{
  ℕ, ℤ, pos, ◌-ℤ◌, ◌/ℤ◌, Bool, false, not, ◌&&◌, Option, none, some, List, [], ◌∷◌, ◌++◌, Text,
  codes, eq_text, if◌then◌else◌, length, leb,
}
use n0ding.Hex.{encode_hex}
use n0ding.Http.{Header, Url, get, set, del}
use n0ding.HttpPolicy.{
  forward_request_headers, response_headers, cache_metadata_headers, copy_headers,
}
use n0ding.HttpPolicy.Directives.{response_allows_storage}
use n0ding.Cache.Store
use n0ding.Cache.Store.{Entry, eq_ℤ}
use n0ding.Cache.Writer.{sink, copy, bytes_of}
use n0ding.Cache.Commit.{Session, Put, stored, bypassed, failed}
use n0ding.Exchange.{
  Request, Incoming, Reply, not_created, no_response, answered, fetch, Env, Response, sent,
  found_entry, format_int, read_body, put_entry, new_metadata, source_of, length_header,
}
use n0ding.Pypi.Urls.{Urls}
use n0ding.Pypi.Proxy.{Proxy, fail, record_stream_error}
use n0ding.Pypi.Links.{rewritten_location}
use n0ding.Pypi.Documents.{Codecs, is_json, is_html, rewrite_simple}
use n0ding.Pypi.Disk.{Disk}
use n0ding.Pypi.Publish.{Posted}

-- What the handlers close over: the environment of the proxies, net/url, the codecs, and the private
-- index with the body that is posted.
pub record World : Type 0 where
  pub env : Env
  pub urls : Urls
  pub codecs : Codecs
  pub disk : Disk
  pub posted : Posted

abbrev pub max_simple_bytes : ℕ
max_simple_bytes = 67108864

abbrev pub with_session : Proxy → Session → Proxy
with_session p s = record p { session = s }

unfoldable pub lookup : Env → Text → Proxy → Proxy × Option Entry
lookup env key p =
    let (s, outcome) = Store.lookup env.platform key p.ttl p.session.store in
    (with_session p (record p.session { store = s }), found_entry outcome)

unfoldable pub serve_hit : Request → Env → Entry → Proxy → Response → Proxy × Response
unfolding format_int
serve_hit q env entry p w =
    let m = entry.metadata in
    let w' = record w {
      header = set (codes "Content-Length") (format_int m.content_bytes) (
          set (codes "Age") (format_int ((p.session.store.now -ℤ m.stored_at) /ℤ 1000000000))
            (set (codes "X-N0ding-Cache") (codes "HIT") (copy_headers w.header m.header)));
      status = some m.status;
    } in
    if eq_text q.method (codes "HEAD")
    then (p, w')
    else (p, record w' { body = sent env entry.body })

unfoldable pub cache_key : Text → Text → Text → Text → Text → Text
cache_key name kind target accept sha256 =
    name
    ++ (codes "\n"
        ++ (kind
            ++ (codes "\n"
                ++ (target ++ (codes "\naccept:" ++ (accept ++ (codes "\nsha256:" ++ sha256)))))))

abbrev outgoing : Proxy → Request → Header
outgoing p q =
    set (codes "Accept-Encoding") (codes "identity")
      (forward_request_headers [] q.header p.forward_authorization)

unfoldable pub do_upstream : World → Request → Url → Proxy → Reply
do_upstream world q target p =
    world.env.upstream fetch q.method (world.urls.show target) (outgoing p q)

unfoldable pub proxy_failure : Env → Proxy → Response → Proxy × Response
unfolding fail
proxy_failure env p w =
    fail env (if env.done then pos 499 else pos 502) (codes "upstream request failed") p w

abbrev pub after_stream : Env → Proxy → Put → Proxy
after_stream env p stored = p
after_stream env p bypassed = p
after_stream env p failed = record_stream_error env p

-- streamResponse; the verifier is what its factory gives for the digest of the body.
unfoldable pub stream_response :
    Env
    → Request
    → Incoming
    → Header
    → Header
    → Text
    → Bool
    → Text
    → Option (ℤ → List ℕ → Bool)
    → Proxy
    → Response
    → Proxy × Response
unfolding record_stream_error
stream_response env q r headers cache_headers key cacheable digest verify p w =
    let w' = record w { header = copy_headers w.header headers; status = some r.status } in
    let answer =
      put_entry env key (new_metadata r.status cache_headers digest) r.body verify p.session in
    if eq_text q.method (codes "HEAD")
    then (p, w')
    else if cacheable
    then (
      after_stream env (with_session p answer.session) answer.put,
      record w' { body = answer.downstream },
    )
    else (p, record w' { body = (copy r.body (sink (pos 0) false)).0.downstream })

abbrev pub unless_head : Request → List ℕ → Response → Response
unless_head q content w = if eq_text q.method (codes "HEAD") then w else record w { body = content }

abbrev pub store_page : Env → Incoming → Header → Text → Bool → List ℕ → Proxy → Proxy
store_page env r cache_headers key cacheable content p =
    if cacheable
    then with_session p
        (put_entry env key (new_metadata r.status (length_header content cache_headers) [])
          (source_of env content) none p.session).session
    else p

abbrev pub page_rewritten :
    Env
    → Request
    → Incoming
    → Header
    → Header
    → Text
    → Bool
    → Proxy
    → Response
    → Option (List ℕ)
    → Proxy × Response
page_rewritten env q r headers cache_headers key cacheable p w none =
    fail env (pos 502) (codes "could not rewrite PyPI metadata") p w
page_rewritten env q r headers cache_headers key cacheable p w (some content) = (
  store_page env r cache_headers key cacheable content p,
  unless_head q (sent env content) (record w {
    header = copy_headers w.header (length_header content headers);
    status = some r.status;
  }),
)

abbrev pub page_read :
    World
    → Request
    → Url
    → Incoming
    → Header
    → Header
    → Text
    → Bool
    → Proxy
    → Response
    → Option (List ℕ)
    → Proxy × Response
page_read world q target r headers cache_headers key cacheable p w none =
    fail world.env (pos 502) (codes "could not read upstream PyPI metadata") p w
page_read world q target r headers cache_headers key cacheable p w (some content) =
    let page =
      rewrite_simple world.env world.urls world.codecs p content
        (get r.header (codes "Content-Type")) target in
    if leb (length content) max_simple_bytes
    then page_rewritten world.env q r headers cache_headers key cacheable p w page
    else (
      p,
      unless_head q (sent world.env (bytes_of r.body.chunks)) (record w {
        header = copy_headers w.header (del (codes "Content-Length") headers);
        status = some r.status;
      }),
    )

abbrev pub miss_header : Incoming → Header
miss_header r =
    set (codes "X-N0ding-Cache") (codes "MISS")
      (del (codes "Content-Encoding") (response_headers r.header))

abbrev pub relocated_header : World → Proxy → Url → Header → Header
relocated_header world p target h =
    let location = rewritten_location world.urls p (get h (codes "Location")) target in
    if not (eq_text location []) then set (codes "Location") location h else h

abbrev pub is_storable : Request → Incoming → List Text → Bool → Bool
is_storable q r varying cacheable =
    cacheable
    && (eq_text q.method (codes "GET")
        && (eq_ℤ r.status (pos 200) && response_allows_storage q.header r.header varying))

-- serveSimpleMiss behind the call of the upstream.
unfoldable pub simple_response :
    World → Request → Url → Text → Bool → Proxy → Response → Reply → Proxy × Response
unfolding proxy_failure
simple_response world q target key cacheable p w not_created = proxy_failure world.env p w
simple_response world q target key cacheable p w no_response = proxy_failure world.env p w
simple_response world q target key cacheable p w (answered r) =
    let headers = relocated_header world p target (miss_header r) in
    let storable = is_storable q r (codes "Accept" ∷ codes "Accept-Encoding" ∷ []) cacheable in
    let cache_headers = cache_metadata_headers headers in
    let content_type = get r.header (codes "Content-Type") in
    let streamed = stream_response world.env q r headers cache_headers key storable [] none p w in
    if not (is_html world.env content_type) && not (is_json world.env content_type)
    then streamed
    else page_read world q target r headers cache_headers key storable p w
        (read_body max_simple_bytes r.body)

unfoldable pub serve_simple_miss :
    World → Request → Url → Text → Bool → Proxy → Response → Proxy × Response
unfolding simple_response do_upstream
serve_simple_miss world q target key cacheable p w =
    simple_response world q target key cacheable p w (do_upstream world q target p)

-- The sum of what has been read from the upstream is the expected one.
abbrev pub sum_verifier : Env → Text → Option (ℤ → List ℕ → Bool)
sum_verifier env [] = none
sum_verifier env (c ∷ sha) =
    some (λ written content. eq_text (encode_hex (env.sum content)) (c ∷ sha))

abbrev pub digest_of : Text → Text
digest_of [] = []
digest_of (c ∷ sha) = codes "sha256:" ++ c ∷ sha

-- serveFileMiss behind the call of the upstream.
unfoldable pub file_response :
    World → Request → Text → Text → Bool → Proxy → Response → Reply → Proxy × Response
unfolding proxy_failure
file_response world q key sha cacheable p w not_created = proxy_failure world.env p w
file_response world q key sha cacheable p w no_response = proxy_failure world.env p w
file_response world q key sha cacheable p w (answered r) =
    let headers = miss_header r in
    stream_response world.env q r headers (cache_metadata_headers headers) key
      (is_storable q r (codes "Accept-Encoding" ∷ []) cacheable) (digest_of sha)
      (sum_verifier world.env sha) p w

unfoldable pub serve_file_miss :
    World → Request → Url → Text → Text → Bool → Proxy → Response → Proxy × Response
unfolding file_response do_upstream
serve_file_miss world q target key sha cacheable p w =
    file_response world q key sha cacheable p w (do_upstream world q target p)
