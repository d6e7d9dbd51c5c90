-- ===== src/Oci/Integrity.antt =====
-- internal/ociproxy/proxy.go: what is cached and what is answered from the cache.
use n0ding.Prelude.{
  ℤ, pos, leb_ℤ, ltb_ℤ, true, false, not, ◌&&◌, Option, none, some, Text, codes, [], ◌∷◌, eq_text,
  eq_text_iff, has_prefix, to_lower, ◌≢◌, ◌↔◌, sym, ap, ◌∙◌, equal_fold, ◌≡◌, refl, ◌⊎◌, inl, inr,
  arith, Bool-cases, Option-cases,
}
use n0ding.Http.{get}
use n0ding.Cache.Store.{Entry}
use n0ding.Oci.Digest.{Class, classify, cache_ttl, cache_key, decode_sha256}
use n0ding.Oci.Sums.{decode_sha256_fold}
use n0ding.Exchange.{
  Request, Incoming, Reply, not_created, no_response, answered, Attempt, first_check, second_check,
  Env, Response,
}
use n0ding.Oci.Proxy.{
  Proxy, outgoing, authorize_cache_hit, is_authorized, serve_hit, target_url, lookup,
}
use n0ding.Oci.Serve.{
  serve_http, serve_target, find, is_cacheable_request, with_range, on_target, on_first, on_second,
  wait, count_request, count_miss,
}
use n0ding.Oci.Counting.{fail-hits, serve_miss-hits, serve_miss-session}

authorized_reply :
    (digest : Text) (reply : Reply)
    → is_authorized digest reply ≡ true
    → (r : Incoming) × (reply ≡ answered r)
      × (leb_ℤ (pos 200) r.status ≡ true)
      × (ltb_ℤ r.status (pos 300) ≡ true)
      × (digest ≢ [])
      × (equal_fold (get r.header (codes "Docker-Content-Digest")) digest ≡ true)
authorized_reply digest not_created h = absurd (cc)
authorized_reply digest no_response h = absurd (cc)
authorized_reply digest (answered r) h = (
  r,
  refl,
  ground (arith, h),
  ground (arith, h),
  λ e. ground (arith, h, eq_text_iff digest []),
  ground (arith, h),
)

same_test : (s t : Text) → equal_fold s t ≡ true → eq_text (to_lower s) (to_lower t) ≡ true
unfolding equal_fold
same_test s t h = h

-- What the answer to a HEAD request has to be for a cached digest: its status is from 200 to 299, and
-- it names the digest, which is not empty, in any case of its letters. The last part is what follows
-- for the sums.
abbrev pub IsGranted : Env → Attempt → Request → Text → Text → Type 0
IsGranted env attempt q target digest =
    (r : Incoming) × (env.upstream attempt (codes "HEAD") target (outgoing q.header) ≡ answered r)
    × (leb_ℤ (pos 200) r.status ≡ true)
    × (ltb_ℤ r.status (pos 300) ≡ true)
    × (digest ≢ [])
    × (to_lower (get r.header (codes "Docker-Content-Digest")) ≡ to_lower digest)
    × (decode_sha256 (get r.header (codes "Docker-Content-Digest")) ≡ decode_sha256 digest)

to_lower_empty : (s : Text) → to_lower [] ≡ to_lower s → s ≡ []
unfolding to_lower
to_lower_empty [] e = refl
to_lower_empty (c ∷ s) e = absurd (ground arith)

granted-is_authorized :
    (digest : Text) (r : Incoming)
    → leb_ℤ (pos 200) r.status ≡ true
    → ltb_ℤ r.status (pos 300) ≡ true
    → digest ≢ []
    → to_lower (get r.header (codes "Docker-Content-Digest")) ≡ to_lower digest
    → is_authorized digest (answered r) ≡ true
unfolding equal_fold
granted-is_authorized digest r low high there same =
    let name = get r.header (codes "Docker-Content-Digest") in
    let cached : eq_text digest [] ≡ false = (ground (arith, eq_text_iff digest [])) in
    let named : eq_text name [] ≡ false = elim (Bool-cases (eq_text name [])) [
      | inr e ↦ e
      | inl e ↦
          absurd
            (there (to_lower_empty digest (ap to_lower (sym ((eq_text_iff name []).0 e)) ∙ same)))
    ] in
    ground (arith, low, high, cached, named, (eq_text_iff (to_lower name) (to_lower digest)).1 same)

-- authorizeCacheHit returns true exactly when the upstream answers a HEAD request for the target, with
-- the fields of the client's request that may pass on, by a status from 200 to 299 and a digest that
-- is, up to case, that of the cached entry, and not empty. decodeSHA256 gives the same for both then.
pub authorized_digest :
    (env : Env) (attempt : Attempt) (q : Request) (target digest : Text)
    → (authorize_cache_hit env attempt q target digest ≡ true)
      ↔ IsGranted env attempt q target digest
unfolding authorize_cache_hit
authorized_digest env attempt q target digest = (
  λ h.
      let (r, e, low, high, there, same) =
        authorized_reply digest (env.upstream attempt (codes "HEAD") target (outgoing q.header))
          h in
      (
        r,
        e,
        low,
        high,
        there,
        (eq_text_iff (to_lower (get r.header (codes "Docker-Content-Digest"))) (to_lower digest)).0
            (same_test (get r.header (codes "Docker-Content-Digest")) digest same),
        decode_sha256_fold (get r.header (codes "Docker-Content-Digest")) digest same,
      ),
  λ (r, e, low, high, there, same, sum). rw e (granted-is_authorized digest r low high there same),
)

serve_hit-hits :
    (env : Env) (q : Request) (e : Entry) (p : Proxy) (w : Response)
    → (serve_hit env q e p w).0.stats.hits ≡ p.stats.hits
unfolding serve_hit
serve_hit-hits env q e p w = ground arith

find-hits :
    (env : Env) (a : Attempt) (q : Request) (target key : Text) (ttl : ℤ) (p : Proxy)
    → ((find env a q target key ttl p).0.stats.hits ≡ p.stats.hits)
      × (((find env a q target key ttl p).1 ≡ none)
          ⊎ ((digest : Text) × (authorize_cache_hit env a q target digest ≡ true)))
unfolding find lookup
find-hits env a q target key ttl p = elim (Option-cases (lookup env key ttl p).1) [
  | inl e ↦ rw e (refl, inl refl)
  | inr (entry, e) ↦
      elim (Bool-cases (authorize_cache_hit env a q target entry.metadata.content_digest)) [
        | inl granted ↦ rw (e, granted) (refl, inr (entry.metadata.content_digest, granted))
        | inr denied ↦ rw (e, denied) (refl, inl refl)
      ]
]

-- Some request to the upstream has allowed a cached entry to be served for the target.
abbrev pub IsAuthorized : Env → Request → Text → Type 0
IsAuthorized env q target =
    (attempt : Attempt) × (digest : Text) × (authorize_cache_hit env attempt q target digest ≡ true)

on_second-hits :
    (env : Env) (q : Request) (target key : Text) (class : Class) (w : Response)
    (x : Proxy × Option Entry)
    → (x.1 ≡ none) ⊎ IsAuthorized env q target
    → ((on_second env q target key class w x).0.stats.hits ≡ x.0.stats.hits)
      ⊎ IsAuthorized env q target
on_second-hits env q target key class w (p, none) h =
    inl (serve_miss-hits env q target key class true (count_miss p) w)
on_second-hits env q target key class w (p, some entry) (inl e) = absurd (cc)
on_second-hits env q target key class w (p, some entry) (inr a) = inr a

find-IsAuthorized :
    (env : Env) (a : Attempt) (q : Request) (target key : Text) (ttl : ℤ) (p : Proxy)
    → ((find env a q target key ttl p).1 ≡ none) ⊎ IsAuthorized env q target
find-IsAuthorized env a q target key ttl p = elim (find-hits env a q target key ttl p).1 [
  | inl e ↦ inl e
  | inr (digest, granted) ↦ inr (a, digest, granted)
]

on_first-hits :
    (env : Env) (q : Request) (target key : Text) (class : Class) (w : Response)
    (x : Proxy × Option Entry)
    → (x.1 ≡ none) ⊎ IsAuthorized env q target
    → ((on_first env q target key class w x).0.stats.hits ≡ x.0.stats.hits)
      ⊎ IsAuthorized env q target
on_first-hits env q target key class w (p, some entry) (inl e) = absurd (cc)
on_first-hits env q target key class w (p, some entry) (inr a) = inr a
on_first-hits env q target key class w (p, none) h =
    let ttl = cache_ttl p.ttl class.kind class.requested_digest in
    let looked = find env second_check q target key ttl (wait env p) in
    elim (on_second-hits env q target key class w looked
      (find-IsAuthorized env second_check q target key ttl (wait env p))) [
        | inl e ↦ inl (e ∙ (find-hits env second_check q target key ttl (wait env p)).0)
        | inr a ↦ inr a
      ]

with_range-hits :
    (q : Request) (p : Proxy)
    → ((with_range q p).stats.hits ≡ p.stats.hits) × ((with_range q p).session ≡ p.session)
with_range-hits q p = ground arith

serve_target-hits :
    (env : Env) (q : Request) (target : Text) (p : Proxy) (w : Response)
    → ((serve_target env q target p w).0.stats.hits ≡ p.stats.hits) ⊎ IsAuthorized env q target
unfolding serve_target
serve_target-hits env q target p w =
    let class = classify q.url_path in
    let key = cache_key p.name target (get q.header (codes "Accept")) in
    let ttl = cache_ttl p.ttl class.kind class.requested_digest in
    let p' = with_range q p in
    elim (Bool-cases (is_cacheable_request q class)) [
      | inl c ↦
          rw c
            (elim (on_first-hits env q target key class w (find env first_check q target key ttl p')
              (find-IsAuthorized env first_check q target key ttl p')) [
                | inl e ↦ inl (
                    e
                    ∙ ((find-hits env first_check q target key ttl p').0 ∙ (with_range-hits q p).0))
                | inr a ↦ inr a
              ])
      | inr c ↦
          rw c (inl (serve_miss-hits env q target key class false p' w ∙ (with_range-hits q p).0))
    ]

on_target-hits :
    (env : Env) (q : Request) (p : Proxy) (w : Response) (t : Option Text)
    → ((on_target env q p w t).0.stats.hits ≡ p.stats.hits)
      ⊎ ((target : Text) × (t ≡ some target) × IsAuthorized env q target)
on_target-hits env q p w none = inl (fail-hits env (pos 400) (codes "invalid upstream URL") p w).0
on_target-hits env q p w (some target) = elim (serve_target-hits env q target p w) [
  | inl e ↦ inl e
  | inr a ↦ inr (target, refl, a)
]

-- Where ServeHTTP does not leave the counter of hits as it is, there is a target that targetURL gives
-- for the request, and authorizeCacheHit has returned true for it and some digest.
pub hits_need_permission :
    (env : Env) (q : Request) (p : Proxy) (w : Response)
    → ((serve_http env q p w).0.stats.hits ≡ p.stats.hits)
      ⊎ ((target : Text) × (target_url env p q ≡ some target) × IsAuthorized env q target)
unfolding serve_http
hits_need_permission env q p w =
    elim (Bool-cases
      (not (eq_text q.method (codes "GET")) && not (eq_text q.method (codes "HEAD")))) [
        | inl refused ↦ rw refused (inl refl)
        | inr allowed ↦ elim (Bool-cases (has_prefix q.url_path p.path)) [
          | inl here ↦
              rw (allowed, here) (on_target-hits env q (count_request p) w (target_url env p q))
          | inr elsewhere ↦ rw (allowed, elsewhere) (inl refl)
        ]
      ]

on_target-session :
    (env : Env) (q : Request) (p : Proxy) (w : Response)
    → is_cacheable_request q (classify q.url_path) ≡ false
    → (t : Option Text) → (on_target env q p w t).0.session ≡ p.session
unfolding serve_target
on_target-session env q p w h none = (fail-hits env (pos 400) (codes "invalid upstream URL") p w).1
on_target-session env q p w h (some target) = rw h (
    serve_miss-session env q target _ (classify q.url_path) (with_range q p) w
    ∙ (with_range-hits q p).1)

-- ServeHTTP leaves the store and the controller as they are for a request that is not cacheable: one
-- whose path is no manifest and no digest of a blob, with a Range field, or with a bypass of the cache.
pub uncached_requests_keep_store :
    (env : Env) (q : Request) (p : Proxy) (w : Response)
    → is_cacheable_request q (classify q.url_path) ≡ false
    → (serve_http env q p w).0.session ≡ p.session
unfolding serve_http
uncached_requests_keep_store env q p w h =
    elim (Bool-cases
      (not (eq_text q.method (codes "GET")) && not (eq_text q.method (codes "HEAD")))) [
        | inl refused ↦ rw refused refl
        | inr allowed ↦ elim (Bool-cases (has_prefix q.url_path p.path)) [
          | inl here ↦
              rw (allowed, here)
                (on_target-session env q (count_request p) w h (target_url env p q))
          | inr elsewhere ↦ rw (allowed, elsewhere) refl
        ]
      ]
