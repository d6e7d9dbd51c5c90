-- ===== src/Oci/Proxy/Miss.antt =====
-- internal/ociproxy/proxy.go: a request that the cache does not answer.
use n0ding.Prelude.{
  ℕ, ◌+◌, ℤ, pos, Bool, false, not, ◌&&◌, Option, none, some, is_some, List, [], ◌∷◌, Text, codes,
  eq_text, if◌then◌else◌, length, leb,
}
use n0ding.Http.{Header, get, set, del}
use n0ding.HttpPolicy.{response_headers, cache_metadata_headers, copy_headers}
use n0ding.HttpPolicy.Directives.{response_allows_storage}
use n0ding.Cache.Naming.{Metadata}
use n0ding.Cache.Store.{eq_ℤ}
use n0ding.Cache.Writer.{Source, sink, copy, bytes_of}
use n0ding.Cache.Commit.{Session, Put, stored, bypassed, failed}
use n0ding.Cache.Put.{Answer}
use n0ding.Oci.Digest.{Kind, manifest, blob, other, Class, decode_sha256, verify_sum}
use n0ding.Exchange.{
  read_body, put_entry, new_metadata, source_of, length_header, Request, Incoming, Reply,
  not_created, no_response, answered, fetch, Env, Response, sent,
}
use n0ding.Oci.Proxy.{Proxy, fail, record_stream_error, outgoing}

-- passThrough
unfoldable pub pass_through : Request → Incoming → Header → Response → Response
pass_through q r headers w =
    let w' = record w { header = copy_headers w.header headers; status = some r.status } in
    if eq_text q.method (codes "HEAD")
    then w'
    else record w' { body = (copy r.body (sink (pos 0) false)).0.downstream }

abbrev pub max_manifest_bytes : ℕ
max_manifest_bytes = 16777216

-- io.ReadAll(io.LimitReader(body, maxManifestBytes+1)): `none` on an error.
unfoldable pub read_limited : Source → Option (List ℕ)
read_limited source = read_body max_manifest_bytes source

abbrev put : Env → Text → Metadata → Source → Option (ℤ → List ℕ → Bool) → Proxy → Answer
put env key metadata source verify p = put_entry env key metadata source verify p.session

abbrev with_session : Proxy → Session → Proxy
with_session p s = record p { session = s }

-- The part of cacheManifest behind ReadAll.
unfoldable pub manifest_read :
    Env
    → Incoming
    → Header
    → Header
    → Text
    → Text
    → Proxy
    → Response
    → Option (List ℕ)
    → Proxy × Response
manifest_read env r headers cache_headers key digest p w none =
    fail env (pos 502) (codes "could not read OCI manifest") p w
manifest_read env r headers cache_headers key digest p w (some content) =
    let length_known = length_header content headers in
    let metadata = new_metadata r.status (length_header content cache_headers) digest in
    let answer = put env key metadata (source_of env content) none p in
    if leb (max_manifest_bytes + 1) (length content)
    then (
      p,
      record w {
        header = copy_headers w.header (del (codes "Content-Length") headers);
        status = some r.status;
        body = sent env (bytes_of r.body.chunks);
      },
    )
    else if not (verify_sum (env.sum content) digest)
    then fail env (pos 502) (codes "upstream OCI manifest digest mismatch") p w
    else (
      with_session p answer.session,
      record w {
        header = copy_headers w.header length_known;
        status = some r.status;
        body = sent env content;
      },
    )

-- cacheManifest
unfoldable pub cache_manifest :
    Env → Incoming → Header → Header → Text → Text → Proxy → Response → Proxy × Response
unfolding manifest_read read_limited
cache_manifest env r headers cache_headers key digest p w =
    manifest_read env r headers cache_headers key digest p w (read_limited r.body)

abbrev after_stream : Env → Proxy → Put → Proxy
after_stream env p stored = p
after_stream env p bypassed = p
after_stream env p failed = record_stream_error env p

-- cacheBlob
unfoldable pub cache_blob :
    Env → Incoming → Header → Header → Text → Text → Proxy → Response → Proxy × Response
cache_blob env r headers cache_headers key digest p w =
    let verify = λ (n : ℤ) (content : List ℕ). verify_sum (env.sum content) digest in
    let answer = put env key (new_metadata r.status cache_headers digest) r.body (some verify) p in
    (
      after_stream env (with_session p answer.session) answer.put,
      record w {
        header = copy_headers w.header headers;
        status = some r.status;
        body = answer.downstream;
      },
    )

unfoldable pub by_kind :
    Env → Request → Incoming → Header → Text → Text → Proxy → Response → Kind → Proxy × Response
unfolding cache_manifest cache_blob
by_kind env q r headers key digest p w manifest =
    cache_manifest env r headers (cache_metadata_headers headers) key digest p w
by_kind env q r headers key digest p w blob =
    cache_blob env r headers (cache_metadata_headers headers) key digest p w
by_kind env q r headers key digest p w other = (p, pass_through q r headers w)

-- The test of serveMiss, but for the digest.
abbrev pub is_storable : Request → Incoming → Bool → Bool
is_storable q r cacheable_request =
    cacheable_request
    && (eq_text q.method (codes "GET")
        && (eq_ℤ r.status (pos 200)
            && response_allows_storage q.header r.header
                (codes "Accept" ∷ codes "Accept-Encoding" ∷ [])))

-- The digest that the body is checked against.
abbrev pub expected_digest : Text → Incoming → Text
expected_digest requested r =
    if eq_text requested [] then get r.header (codes "Docker-Content-Digest") else requested

-- The response that is cached, by the last test on its digest, or is passed through.
unfoldable pub store_or_pass :
    Env → Request → Incoming → Text → Class → Proxy → Response → Bool → Proxy × Response
unfolding by_kind
store_or_pass env q r key class p w passes =
    let headers = set (codes "X-N0ding-Cache") (codes "MISS") (response_headers r.header) in
    let digest = expected_digest class.requested_digest r in
    let checked = set (codes "Docker-Content-Digest") digest headers in
    if passes
    then by_kind env q r checked key digest p w class.kind
    else (p, pass_through q r headers w)

unfoldable pub respond :
    Env → Request → Text → Class → Bool → Proxy → Response → Reply → Proxy × Response
unfolding store_or_pass
respond env q key class cacheable_request p w not_created =
    fail env (pos 502) (codes "could not create upstream request") p w
respond env q key class cacheable_request p w no_response =
    fail env (pos 502) (codes "upstream request failed") p w
respond env q key class cacheable_request p w (answered r) = store_or_pass env q r key class p w (
    is_storable q r cacheable_request
    && is_some (decode_sha256 (expected_digest class.requested_digest r)))

unfoldable pub serve_miss :
    Env → Request → Text → Text → Class → Bool → Proxy → Response → Proxy × Response
unfolding outgoing respond
serve_miss env q target key class cacheable_request p w =
    respond env q key class cacheable_request p w
      (env.upstream fetch q.method target (outgoing q.header))
