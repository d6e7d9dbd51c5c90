-- ===== src/Npm/Serve.antt =====
-- internal/npmproxy/proxy.go: ServeHTTP and what it does with a miss.
use n0ding.Prelude.{
  ℕ, pos, Bool, true, false, not, ◌&&◌, ◌||◌, Option, none, some, List, [], ◌∷◌, Text, codes,
  eq_text, if◌then◌else◌, length, leb, has_prefix,
}
use n0ding.Http.{Header, get, set, del}
use n0ding.HttpPolicy.{
  forward_request_headers, response_headers, cache_metadata_headers, copy_headers,
}
use n0ding.HttpPolicy.Directives.{request_bypasses_cache, response_allows_storage}
use n0ding.Cache.Store.{Entry, eq_ℤ}
use n0ding.Cache.Writer.{sink, copy, bytes_of}
use n0ding.Cache.Commit.{Session, Put, stored, bypassed, failed}
use n0ding.Exchange.{
  Request, Incoming, Reply, not_created, no_response, answered, fetch, Env, Response, bump,
  http_error, sent, read_body, put_entry, new_metadata, source_of, length_header,
}
use n0ding.Npm.{
  Proxy, trim_slashes, fail, record_stream_error, target_url, cache_key, lookup, serve_hit, is_json,
  replace_all,
}

abbrev pub max_metadata_bytes : ℕ
max_metadata_bytes = 67108864

abbrev with_session : Proxy → Session → Proxy
with_session p s = record p { session = s }

-- The body, but for a HEAD request.
abbrev pub unless_head : Request → List ℕ → Response → Response
unless_head q content w = if eq_text q.method (codes "HEAD") then w else record w { body = content }

abbrev pub store_metadata : Env → Incoming → Header → Text → Bool → List ℕ → Proxy → Proxy
store_metadata env r cache_headers key cacheable content p =
    if cacheable
    then with_session p
        (put_entry env key (new_metadata r.status (length_header content cache_headers) [])
          (source_of env content) none p.session).session
    else p

-- The URLs of the upstream in a body are replaced by those of the proxy.
unfoldable pub rewritten : Proxy → List ℕ → List ℕ
unfolding replace_all
rewritten p content = replace_all (trim_slashes p.upstream) p.proxy_base_url content

abbrev pub metadata_read :
    Env
    → Request
    → Incoming
    → Header
    → Header
    → Text
    → Bool
    → Proxy
    → Response
    → Option (List ℕ)
    → Proxy × Response
metadata_read env q r headers cache_headers key cacheable p w none =
    fail env (pos 502) (codes "could not read upstream metadata") p w
metadata_read env q r headers cache_headers key cacheable p w (some content) =
    let body = rewritten p content in
    if leb (length content) max_metadata_bytes
    then (
      store_metadata env r cache_headers key cacheable body p,
      unless_head q (sent env body) (record w {
        header = copy_headers w.header (length_header body headers);
        status = some r.status;
      }),
    )
    else (
      p,
      unless_head q (sent env (bytes_of r.body.chunks)) (record w {
        header = copy_headers w.header (del (codes "Content-Length") headers);
        status = some r.status;
      }),
    )

unfoldable pub serve_metadata :
    Env → Request → Incoming → Header → Header → Text → Bool → Proxy → Response → Proxy × Response
serve_metadata env q r headers cache_headers key cacheable p w =
    metadata_read env q r headers cache_headers key cacheable p w
      (read_body max_metadata_bytes r.body)

abbrev after_stream : Env → Proxy → Put → Proxy
after_stream env p stored = p
after_stream env p bypassed = p
after_stream env p failed = record_stream_error env p

-- A body that is no JSON is streamed.
unfoldable pub stream :
    Env → Request → Incoming → Header → Header → Text → Bool → Proxy → Response → Proxy × Response
stream env q r headers cache_headers key cacheable p w =
    let w' = record w { header = copy_headers w.header headers; status = some r.status } in
    let answer = put_entry env key (new_metadata r.status cache_headers []) r.body none p.session in
    if eq_text q.method (codes "HEAD")
    then (p, w')
    else if cacheable
    then (
      after_stream env (with_session p answer.session) answer.put,
      record w' { body = answer.downstream },
    )
    else (p, record w' { body = (copy r.body (sink (pos 0) false)).0.downstream })

abbrev pub is_storable : Request → Incoming → Bool → Bool
is_storable q r cacheable =
    cacheable
    && (eq_text q.method (codes "GET")
        && (eq_ℤ r.status (pos 200)
            && response_allows_storage q.header r.header
                (codes "Accept" ∷ codes "Accept-Encoding" ∷ [])))

abbrev pub miss_header : Incoming → Header
miss_header r =
    set (codes "X-N0ding-Cache") (codes "MISS")
      (del (codes "Content-Encoding") (response_headers r.header))

unfoldable pub respond : Env → Request → Text → Bool → Proxy → Response → Reply → Proxy × Response
unfolding serve_metadata stream
respond env q key cacheable p w not_created =
    fail env (pos 502) (codes "could not create upstream request") p w
respond env q key cacheable p w no_response =
    fail env (if env.done then pos 499 else pos 502) (codes "upstream request failed") p w
respond env q key cacheable p w (answered r) =
    let headers = miss_header r in
    let storable = is_storable q r cacheable in
    if is_json env (get r.header (codes "Content-Type"))
    then serve_metadata env q r headers (cache_metadata_headers headers) key storable p w
    else stream env q r headers (cache_metadata_headers headers) key storable p w

abbrev pub outgoing : Proxy → Request → Header
outgoing p q =
    set (codes "Accept-Encoding") (codes "identity")
      (forward_request_headers [] q.header p.forward_authorization)

unfoldable pub serve_miss : Env → Request → Text → Text → Bool → Proxy → Response → Proxy × Response
unfolding respond
serve_miss env q target key cacheable p w =
    respond env q key cacheable p w (env.upstream fetch q.method target (outgoing p q))

abbrev pub count_request : Proxy → Proxy
count_request p = record p { stats = record p.stats { requests = bump p.stats.requests } }

abbrev pub count_hit : Proxy → Proxy
count_hit p = record p { stats = record p.stats { hits = bump p.stats.hits } }

abbrev pub count_miss : Proxy → Proxy
count_miss p = record p { stats = record p.stats { misses = bump p.stats.misses } }

abbrev pub is_cacheable : Proxy → Request → Bool
is_cacheable p q =
    eq_text (get q.header (codes "Range")) []
    && (not (request_bypasses_cache q.header)
        && (not p.forward_authorization || eq_text (get q.header (codes "Authorization")) []))

-- What other requests do while this one waits for the lock of its key.
abbrev pub wait : Env → Proxy → Proxy
wait env p = record p { session = env.meanwhile p.session }

abbrev pub on_second :
    Env → Request → Text → Text → Response → Proxy × Option Entry → Proxy × Response
on_second env q target key w (p, some entry) = serve_hit q env entry (count_hit p) w
on_second env q target key w (p, none) = serve_miss env q target key true (count_miss p) w

abbrev pub on_first :
    Env → Request → Text → Text → Response → Proxy × Option Entry → Proxy × Response
on_first env q target key w (p, some entry) = serve_hit q env entry (count_hit p) w
on_first env q target key w (p, none) = on_second env q target key w (lookup env key (wait env p))

unfoldable pub serve_target : Env → Request → Text → Proxy → Response → Proxy × Response
serve_target env q target p w =
    let key = cache_key p.name target (get q.header (codes "Accept")) in
    if is_cacheable p q
    then on_first env q target key w (lookup env key p)
    else serve_miss env q target key false (count_miss (wait env p)) w

abbrev pub on_target : Env → Request → Proxy → Response → Option Text → Proxy × Response
on_target env q p w none = fail env (pos 400) (codes "invalid upstream URL") p w
on_target env q p w (some target) = serve_target env q target p w

unfoldable pub serve_http : Env → Request → Proxy → Response → Proxy × Response
unfolding serve_target
serve_http env q p w =
    let p' = count_request p in
    if not (eq_text q.method (codes "GET")) && not (eq_text q.method (codes "HEAD"))
    then (
      p',
      http_error (pos 405) (codes "method not allowed")
          (record w { header = set (codes "Allow") (codes "GET, HEAD") w.header }),
    )
    else if not (has_prefix q.url_path p.path)
    then (p', http_error (pos 404) (codes "404 page not found") w)
    else on_target env q p' w (target_url env p q)
