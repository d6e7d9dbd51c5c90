-- ===== src/Npm/Privacy.antt =====
-- internal/npmproxy/proxy.go: a request with credentials that are forwarded does not meet the cache.
use n0ding.Prelude.{
  ℕ, ℤ, pos, true, false, not, ◌&&◌, Option, none, some, List, [], Text, codes, eq_text,
  if◌then◌else◌, has_prefix, length, leb, ◌≡◌, refl, ◌⊎◌, inl, inr, arith, Bool-cases,
}
use n0ding.Http.{Header, get}
use n0ding.HttpPolicy.{cache_metadata_headers}
use n0ding.Exchange.{
  Request, Incoming, Reply, not_created, no_response, answered, fetch, Env, Response, read_body,
}
use n0ding.Npm.{Proxy, fail, target_url, is_json, cache_key}
use n0ding.Npm.Serve.{
  metadata_read, serve_metadata, stream, respond, serve_miss, is_cacheable, wait, count_request,
  count_miss, serve_target, on_target, serve_http, max_metadata_bytes, miss_header, outgoing,
}

-- Neither a hit is counted nor the cache changed.
record IsAside (p p' : Proxy) : Type 0 where
  same_hits : p'.stats.hits ≡ p.stats.hits
  same_session : p'.session ≡ p.session

fail-IsAside :
    (env : Env) (status : ℤ) (m : Text) (p : Proxy) (w : Response)
    → IsAside p (fail env status m p w).0
unfolding fail
fail-IsAside env status m p w = elim (Bool-cases env.canceled) [
  | inl c ↦ rw c (record { same_hits = refl; same_session = refl })
  | inr c ↦ rw c (record { same_hits = refl; same_session = refl })
]

metadata_read-IsAside :
    (env : Env) (q : Request) (r : Incoming) (h c : Header) (key : Text) (p : Proxy) (w : Response)
    (o : Option (List ℕ))
    → IsAside p (metadata_read env q r h c key false p w o).0
metadata_read-IsAside env q r h c key p w none = fail-IsAside env (pos 502) _ p w
metadata_read-IsAside env q r h c key p w (some content) =
    elim (Bool-cases (leb (length content) max_metadata_bytes)) [
      | inl e ↦ rw e (record { same_hits = refl; same_session = refl })
      | inr e ↦ rw e (record { same_hits = refl; same_session = refl })
    ]

stream-IsAside :
    (env : Env) (q : Request) (r : Incoming) (h c : Header) (key : Text) (p : Proxy) (w : Response)
    → IsAside p (stream env q r h c key false p w).0
unfolding stream
stream-IsAside env q r h c key p w = elim (Bool-cases (eq_text q.method (codes "HEAD"))) [
  | inl e ↦ rw e (record { same_hits = refl; same_session = refl })
  | inr e ↦ rw e (record { same_hits = refl; same_session = refl })
]

respond-IsAside :
    (env : Env) (q : Request) (key : Text) (p : Proxy) (w : Response) (reply : Reply)
    → IsAside p (respond env q key false p w reply).0
unfolding respond serve_metadata
respond-IsAside env q key p w not_created = fail-IsAside env (pos 502) _ p w
respond-IsAside env q key p w no_response =
    fail-IsAside env (if env.done then pos 499 else pos 502) _ p w
respond-IsAside env q key p w (answered r) =
    elim (Bool-cases (is_json env (get r.header (codes "Content-Type")))) [
      | inl e ↦ rw e (
          metadata_read-IsAside env q r (miss_header r) (cache_metadata_headers (miss_header r)) key
            p w (read_body max_metadata_bytes r.body))
      | inr e ↦
          rw e (
            stream-IsAside env q r (miss_header r) (cache_metadata_headers (miss_header r)) key p w)
    ]

-- The request counters apart, the proxy is as before, or as others left it while the request waited.
abbrev pub IsUntouched : Env → Proxy → Proxy → Type 0
IsUntouched env p p' =
    (p'.stats.hits ≡ p.stats.hits)
    × ((p'.session ≡ p.session) ⊎ (p'.session ≡ env.meanwhile p.session))

of_IsAside : (env : Env) (p p' : Proxy) → IsAside p p' → IsUntouched env p p'
of_IsAside env p p' h = (h.same_hits, inl h.same_session)

on_target-IsUntouched :
    (env : Env) (q : Request) (p : Proxy) (w : Response) (t : Option Text)
    → is_cacheable p q ≡ false
    → IsUntouched env p (on_target env q p w t).0
unfolding serve_target serve_miss
on_target-IsUntouched env q p w none h = of_IsAside env p _ (fail-IsAside env (pos 400) _ p w)
on_target-IsUntouched env q p w (some target) h =
    let p' = count_miss (wait env p) in
    let key = cache_key p.name target (get q.header (codes "Accept")) in
    let aside =
      respond-IsAside env q key p' w (env.upstream fetch q.method target (outgoing p' q)) in
    rw h (aside.same_hits, inr aside.same_session)

private_is_uncacheable :
    (p : Proxy) (q : Request)
    → p.forward_authorization ≡ true
    → eq_text (get q.header (codes "Authorization")) [] ≡ false
    → is_cacheable p q ≡ false
private_is_uncacheable p q f a = ground (arith, f, a)

-- Where the proxy forwards Authorization and the request has that field, ServeHTTP counts no hit, and
-- leaves the store and the controller as they were, or as other requests left them while this one
-- waited for the lock of its key.
pub private_requests_keep_cache :
    (env : Env) (q : Request) (p : Proxy) (w : Response)
    → p.forward_authorization ≡ true
    → eq_text (get q.header (codes "Authorization")) [] ≡ false
    → IsUntouched env p (serve_http env q p w).0
unfolding serve_http
private_requests_keep_cache env q p w f a =
    elim (Bool-cases
      (not (eq_text q.method (codes "GET")) && not (eq_text q.method (codes "HEAD")))) [
        | inl refused ↦ rw refused (refl, inl refl)
        | inr allowed ↦ elim (Bool-cases (has_prefix q.url_path p.path)) [
          | inl here ↦
              rw (allowed, here)
                (on_target-IsUntouched env q (count_request p) w (target_url env p q)
                  (private_is_uncacheable p q f a))
          | inr elsewhere ↦ rw (allowed, elsewhere) (refl, inl refl)
        ]
      ]
