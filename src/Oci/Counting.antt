-- ===== src/Oci/Counting.antt =====
-- internal/ociproxy/proxy.go: fail and serveMiss leave the counter of hits, and what they leave of the
-- session.
use n0ding.Prelude.{
  ℕ, ℤ, pos, Bool, true, false, Option, none, some, List, Text, ◌≡◌, refl, inl, inr, arith,
  Bool-cases,
}
use n0ding.Http.{Header}
use n0ding.Oci.Digest.{Kind, manifest, blob, other, Class}
use n0ding.Exchange.{
  Request, Incoming, Reply, not_created, no_response, answered, fetch, Env, Response,
}
use n0ding.Oci.Proxy.{Proxy, fail, record_stream_error, outgoing}
use n0ding.Oci.Proxy.Miss.{
  cache_manifest, cache_blob, serve_miss, manifest_read, read_limited, by_kind, store_or_pass,
  respond,
}
use n0ding.HttpPolicy.{cache_metadata_headers}

pub fail-hits :
    (env : Env) (status : ℤ) (m : Text) (p : Proxy) (w : Response)
    → ((fail env status m p w).0.stats.hits ≡ p.stats.hits)
      × ((fail env status m p w).0.session ≡ p.session)
unfolding fail
fail-hits env status m p w = elim (Bool-cases env.canceled) [
  | inl c ↦ rw c (refl, refl)
  | inr c ↦ rw c (refl, refl)
]

manifest_read-hits :
    (env : Env) (r : Incoming) (h c : Header) (key digest : Text) (p : Proxy) (w : Response)
    (o : Option (List ℕ))
    → (manifest_read env r h c key digest p w o).0.stats.hits ≡ p.stats.hits
unfolding manifest_read fail
manifest_read-hits env r h c key digest p w none = ground arith
manifest_read-hits env r h c key digest p w (some content) = ground arith

cache_manifest-hits :
    (env : Env) (r : Incoming) (h c : Header) (key digest : Text) (p : Proxy) (w : Response)
    → (cache_manifest env r h c key digest p w).0.stats.hits ≡ p.stats.hits
unfolding cache_manifest
cache_manifest-hits env r h c key digest p w =
    manifest_read-hits env r h c key digest p w (read_limited r.body)

cache_blob-hits :
    (env : Env) (r : Incoming) (h c : Header) (key digest : Text) (p : Proxy) (w : Response)
    → (cache_blob env r h c key digest p w).0.stats.hits ≡ p.stats.hits
unfolding cache_blob record_stream_error
cache_blob-hits env r h c key digest p w = ground arith

by_kind-hits :
    (env : Env) (q : Request) (r : Incoming) (h : Header) (key digest : Text) (p : Proxy)
    (w : Response) (k : Kind)
    → (by_kind env q r h key digest p w k).0.stats.hits ≡ p.stats.hits
unfolding by_kind
by_kind-hits env q r h key digest p w manifest =
    cache_manifest-hits env r h (cache_metadata_headers h) key digest p w
by_kind-hits env q r h key digest p w blob =
    cache_blob-hits env r h (cache_metadata_headers h) key digest p w
by_kind-hits env q r h key digest p w other = refl

store_or_pass-hits :
    (env : Env) (q : Request) (r : Incoming) (key : Text) (class : Class) (p : Proxy) (w : Response)
    (b : Bool)
    → (store_or_pass env q r key class p w b).0.stats.hits ≡ p.stats.hits
unfolding store_or_pass
store_or_pass-hits env q r key class p w true = by_kind-hits env q r _ key _ p w class.kind
store_or_pass-hits env q r key class p w false = refl

respond-hits :
    (env : Env) (q : Request) (key : Text) (class : Class) (b : Bool) (p : Proxy) (w : Response)
    (reply : Reply)
    → (respond env q key class b p w reply).0.stats.hits ≡ p.stats.hits
unfolding respond
respond-hits env q key class b p w not_created = (fail-hits env (pos 502) _ p w).0
respond-hits env q key class b p w no_response = (fail-hits env (pos 502) _ p w).0
respond-hits env q key class b p w (answered r) = store_or_pass-hits env q r key class p w _

pub serve_miss-hits :
    (env : Env) (q : Request) (target key : Text) (class : Class) (b : Bool) (p : Proxy)
    (w : Response)
    → (serve_miss env q target key class b p w).0.stats.hits ≡ p.stats.hits
unfolding serve_miss
serve_miss-hits env q target key class b p w =
    respond-hits env q key class b p w (env.upstream fetch q.method target (outgoing q.header))

-- The counters and the session that a request without the cache leaves.
pub serve_miss-session :
    (env : Env) (q : Request) (target key : Text) (class : Class) (p : Proxy) (w : Response)
    → (serve_miss env q target key class false p w).0.session ≡ p.session
unfolding serve_miss respond store_or_pass fail
serve_miss-session env q target key class p w = ground arith
