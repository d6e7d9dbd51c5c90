-- ===== src/Oci/Proxy.antt =====
-- internal/ociproxy/proxy.go: the state of a Proxy, what a request meets, and what it answers with.
pub mod Miss
use n0ding.Prelude.{
  ℕ, zero, suc, ◌+◌, ◌-◌, ◌*◌, ◌/◌, ◌%◌, ◌^◌, ℤ, pos, negsuc, ◌-ℤ◌, ◌/ℤ◌, int64, leb_ℤ, ltb_ℤ, Bool,
  true, false, not, ◌&&◌, ◌||◌, Option, none, some, List, [], ◌∷◌, ◌++◌, Text, codes, eq_text,
  if◌then◌else◌, take, ◌==◌, equal_fold, trim_right, has_prefix,
}
use n0ding.Http.{Header, get, set}
use n0ding.HttpPolicy.{forward_request_headers, copy_headers}
use n0ding.Cache.Naming.{Metadata, Platform}
use n0ding.Cache.Store.{Store, Entry, Outcome}
use n0ding.Cache.Store
use n0ding.Cache.Writer.{Chunk, Source}
use n0ding.Cache.Commit.{Session}
use n0ding.Exchange.{
  Request, Reply, not_created, no_response, answered, Attempt, Env, Response, bump, http_error,
  sent, found_entry, format_int, takes_all,
}
use n0ding.Oci.Digest.{verify_sum}

pub record Counters : Type 0 where
  pub requests : ℕ
  pub hits : ℕ
  pub misses : ℕ
  pub errors : ℕ
  pub client_canceled : ℕ
  pub range_requests : ℕ

-- The store with the controller that it may share is the `store` of a Session with no reservation.
pub record Proxy : Type 0 where
  pub name : Text
  pub path : Text
  pub upstream : Text
  pub ttl : ℤ
  pub stats : Counters
  pub session : Session

abbrev pub count_error : Proxy → Proxy
count_error p = record p { stats = record p.stats { errors = bump p.stats.errors } }

abbrev pub count_canceled : Proxy → Proxy
count_canceled p = record p {
  stats = record p.stats { client_canceled = bump p.stats.client_canceled };
}

-- fail
unfoldable pub fail : Env → ℤ → Text → Proxy → Response → Proxy × Response
fail env status message p w =
    if env.canceled then (count_canceled p, w) else (count_error p, http_error status message w)

-- recordStreamError
unfoldable pub record_stream_error : Env → Proxy → Proxy
record_stream_error env p = if env.canceled then count_canceled p else count_error p

unfoldable pub target_url : Env → Proxy → Request → Option Text
target_url env p q =
    env.parse_url (trim_right (λ c. c == b'/') p.upstream ++ q.escaped_path) q.raw_query

unfoldable pub lookup : Env → Text → ℤ → Proxy → Proxy × Option Entry
lookup env key ttl p =
    let (s, outcome) = Store.lookup env.platform key ttl p.session.store in
    (record p { session = record p.session { store = s } }, found_entry outcome)

-- The test of authorizeCacheHit on the response.
abbrev pub is_authorized : Text → Reply → Bool
is_authorized cached_digest not_created = false
is_authorized cached_digest no_response = false
is_authorized cached_digest (answered r) =
    let upstream_digest = get r.header (codes "Docker-Content-Digest") in
    if ltb_ℤ r.status (pos 200) || leb_ℤ (pos 300) r.status
    then false
    else not (eq_text upstream_digest [])
      && (not (eq_text cached_digest []) && equal_fold upstream_digest cached_digest)

-- The header of a request to the upstream.
unfoldable pub outgoing : Header → Header
outgoing header =
    set (codes "Accept-Encoding") (codes "identity") (forward_request_headers [] header true)

unfoldable pub authorize_cache_hit : Env → Attempt → Request → Text → Text → Bool
unfolding outgoing
authorize_cache_hit env attempt q target cached_digest =
    is_authorized cached_digest (env.upstream attempt (codes "HEAD") target (outgoing q.header))

abbrev digest_header : Text → Header → Header
digest_header digest h =
    if not (eq_text digest []) then set (codes "Docker-Content-Digest") digest h else h

abbrev hit_header : ℤ → Metadata → Header → Header
hit_header now m h = digest_header m.content_digest (
    set (codes "Content-Length") (format_int m.content_bytes) (
      set (codes "Age") (format_int ((now -ℤ m.stored_at) /ℤ 1000000000))
        (set (codes "X-N0ding-Cache") (codes "HIT") (copy_headers h m.header))))

unfoldable pub serve_hit : Env → Request → Entry → Proxy → Response → Proxy × Response
unfolding format_int
serve_hit env q entry p w =
    let m = entry.metadata in
    let w' = record w {
      header = hit_header p.session.store.now m w.header;
      status = some m.status;
    } in
    let done = record w' { body = sent env entry.body } in
    if eq_text q.method (codes "HEAD")
    then (p, w')
    else if not (eq_text m.content_digest [])
        && takes_all env.hangup entry.body
        && not (verify_sum (env.sum entry.body) m.content_digest)
    then (count_error p, done)
    else (p, done)
