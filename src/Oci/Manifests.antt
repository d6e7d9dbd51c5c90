-- ===== src/Oci/Manifests.antt =====
-- internal/ociproxy/proxy.go: cacheManifest.
use n0ding.Prelude.{
  ℕ, zero, suc, ◌+◌, pos, true, false, none, some, List, [], ◌∷◌, Text, codes, length, leb, take,
  ◌≡◌, refl, ◌⊎◌, inl, inr, arith, Bool-cases,
}
use n0ding.Http.{Header}
use n0ding.Cache.Writer.{Source, bytes_of}
use n0ding.Oci.Digest.{verify_sum}
use n0ding.Exchange.{Incoming, Env, Response}
use n0ding.Oci.Proxy.{Proxy, fail}
use n0ding.Oci.Proxy.Miss.{cache_manifest, max_manifest_bytes, manifest_read, read_limited}
use n0ding.Oci.Counting.{fail-hits}

-- What cacheManifest keeps of the session, for a body that has been read.
manifest_read-session :
    (env : Env) (r : Incoming) (h c : Header) (key digest : Text) (p : Proxy) (w : Response)
    (content : List ℕ)
    → ((manifest_read env r h c key digest p w (some content)).0.session ≡ p.session)
      ⊎ ((leb (length content) max_manifest_bytes ≡ true)
          × (verify_sum (env.sum content) digest ≡ true))
unfolding manifest_read fail
manifest_read-session env r h c key digest p w content =
    elim (Bool-cases (leb (max_manifest_bytes + 1) (length content))) [
      | inl long ↦ inl (rw long refl)
      | inr short ↦ elim (Bool-cases (verify_sum (env.sum content) digest)) [
        | inl good ↦ inr (ground (arith, short), good)
        | inr bad ↦ inl (
            rw (short, bad)
              (fail-hits env (pos 502) (codes "upstream OCI manifest digest mismatch") p w).1)
      ]
    ]

take_exact : (n : ℕ) (xs : List ℕ) → leb n (length xs) ≡ true → length (take n xs) ≡ n
take_exact zero [] h = refl
take_exact zero (x ∷ xs) h = refl
take_exact (suc n) [] h = absurd (ground arith)
take_exact (suc n) (x ∷ xs) h = ground (arith, take_exact n xs (ground arith))

-- The body that is read is too long by one, or is whole.
read_limited_cases :
    (s : Source)
    → (read_limited s ≡ none)
      ⊎ ((content : List ℕ) × (read_limited s ≡ some content)
          × ((length content ≡ max_manifest_bytes + 1)
              ⊎ ((s.fails ≡ false) × (content ≡ bytes_of s.chunks))))
unfolding read_limited
read_limited_cases s =
    elim (Bool-cases (leb (max_manifest_bytes + 1) (length (bytes_of s.chunks)))) [
      | inl long ↦ rw long (
          inr (
            take (max_manifest_bytes + 1) (bytes_of s.chunks),
            refl,
            inl (take_exact (max_manifest_bytes + 1) (bytes_of s.chunks) long),
          ))
      | inr short ↦ elim (Bool-cases s.fails) [
        | inl f ↦ inl (rw (short, f) refl)
        | inr f ↦ inr (bytes_of s.chunks, (rw (short, f) refl), inr (f, refl))
      ]
    ]

-- cacheManifest leaves the store and the controller as they are, or the body of the upstream's
-- response has come to its end, is no longer than maxManifestBytes, and has the sum that the digest names.
pub manifest_is_verified :
    (env : Env) (r : Incoming) (h c : Header) (key digest : Text) (p : Proxy) (w : Response)
    → ((cache_manifest env r h c key digest p w).0.session ≡ p.session)
      ⊎ ((r.body.fails ≡ false)
          × (leb (length (bytes_of r.body.chunks)) max_manifest_bytes ≡ true)
          × (verify_sum (env.sum (bytes_of r.body.chunks)) digest ≡ true))
unfolding cache_manifest
manifest_is_verified env r h c key digest p w = elim (read_limited_cases r.body) [
  | inl e ↦ inl (rw e (fail-hits env (pos 502) (codes "could not read OCI manifest") p w).1)
  | inr (content, e, inl long) ↦ inl (
      rw e (elim (manifest_read-session env r h c key digest p w content) [
        | inl same ↦ same
        | inr (short, good) ↦ absurd (ground (arith, long, short))
      ]))
  | inr (content, e, inr (f, whole)) ↦
      rw e (elim (manifest_read-session env r h c key digest p w content) [
        | inl same ↦ inl same
        | inr (short, good) ↦ inr (f, (rw (← whole) short), (rw (← whole) good))
      ])
]
