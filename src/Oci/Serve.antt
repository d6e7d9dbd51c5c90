-- ===== src/Oci/Serve.antt =====
-- internal/ociproxy/proxy.go: ServeHTTP.
use n0ding.Prelude.{
  ℤ, pos, Bool, true, false, not, ◌&&◌, Option, none, some, [], Text, codes, eq_text, if◌then◌else◌,
  has_prefix,
}
use n0ding.Http.{get, set}
use n0ding.HttpPolicy.Directives.{request_bypasses_cache}
use n0ding.Cache.Store.{Entry}
use n0ding.Oci.Digest.{Class, classify, cache_ttl, cache_key}
use n0ding.Exchange.{Request, Attempt, first_check, second_check, Env, Response, bump, http_error}
use n0ding.Oci.Proxy.{Proxy, fail, target_url, lookup, authorize_cache_hit, serve_hit}
use n0ding.Oci.Proxy.Miss.{serve_miss}

-- p.stats.requests.Add(1) and the like.
abbrev pub count_request : Proxy → Proxy
count_request p = record p { stats = record p.stats { requests = bump p.stats.requests } }

abbrev count_range : Proxy → Proxy
count_range p = record p { stats = record p.stats { range_requests = bump p.stats.range_requests } }

abbrev pub count_hit : Proxy → Proxy
count_hit p = record p { stats = record p.stats { hits = bump p.stats.hits } }

abbrev pub count_miss : Proxy → Proxy
count_miss p = record p { stats = record p.stats { misses = bump p.stats.misses } }

-- One look into the cache: an entry to answer with.
abbrev pub authorized_entry :
    Env → Attempt → Request → Text → Proxy × Option Entry → Proxy × Option Entry
authorized_entry env attempt q target (p, none) = (p, none)
authorized_entry env attempt q target (p, some entry) =
    if authorize_cache_hit env attempt q target entry.metadata.content_digest
    then (p, some entry)
    else (p, none)

unfoldable pub find : Env → Attempt → Request → Text → Text → ℤ → Proxy → Proxy × Option Entry
find env attempt q target key ttl p = authorized_entry env attempt q target (lookup env key ttl p)

abbrev pub wait : Env → Proxy → Proxy
wait env p = record p { session = env.meanwhile p.session }

abbrev pub on_second :
    Env → Request → Text → Text → Class → Response → Proxy × Option Entry → Proxy × Response
on_second env q target key class w (p, some entry) = serve_hit env q entry (count_hit p) w
on_second env q target key class w (p, none) =
    serve_miss env q target key class true (count_miss p) w

abbrev pub on_first :
    Env → Request → Text → Text → Class → Response → Proxy × Option Entry → Proxy × Response
on_first env q target key class w (p, some entry) = serve_hit env q entry (count_hit p) w
on_first env q target key class w (p, none) = on_second env q target key class w (
    find env second_check q target key (cache_ttl p.ttl class.kind class.requested_digest)
      (wait env p))

abbrev is_range : Request → Bool
is_range q = not (eq_text (get q.header (codes "Range")) [])

-- The counters behind the test of the Range field.
abbrev pub with_range : Request → Proxy → Proxy
with_range q p = if is_range q then count_range p else p

abbrev pub is_cacheable_request : Request → Class → Bool
is_cacheable_request q class =
    class.cacheable && (not (is_range q) && not (request_bypasses_cache q.header))

-- From the class of the path on.
unfoldable pub serve_target : Env → Request → Text → Proxy → Response → Proxy × Response
serve_target env q target p w =
    let class = classify q.url_path in
    let p' = with_range q p in
    let key = cache_key p.name target (get q.header (codes "Accept")) in
    if is_cacheable_request q class
    then on_first env q target key class w
        (find env first_check q target key (cache_ttl p.ttl class.kind class.requested_digest) p')
    else serve_miss env q target key class false p' w

abbrev pub on_target : Env → Request → Proxy → Response → Option Text → Proxy × Response
on_target env q p w none = fail env (pos 400) (codes "invalid upstream URL") p w
on_target env q p w (some target) = serve_target env q target p w

unfoldable pub serve_http : Env → Request → Proxy → Response → Proxy × Response
unfolding serve_target
serve_http env q p w =
    let p' = count_request p in
    if not (eq_text q.method (codes "GET")) && not (eq_text q.method (codes "HEAD"))
    then (
      p',
      http_error (pos 405) (codes "OCI pull-through spike is read-only")
          (record w { header = set (codes "Allow") (codes "GET, HEAD") w.header }),
    )
    else if not (has_prefix q.url_path p.path)
    then (p', http_error (pos 404) (codes "404 page not found") w)
    else on_target env q p' w (target_url env p q)
