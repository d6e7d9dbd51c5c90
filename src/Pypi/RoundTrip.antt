-- ===== src/Pypi/RoundTrip.antt =====
-- internal/pypiproxy/proxy.go: what proxyFileURL puts into a link is what fileTargetURL takes from the
-- request that follows it.
use mathlib.Core.List.{append_assoc, append-nil}
use n0ding.Prelude.{
  ℕ, true, false, Option, none, some, is_some, List, [], ◌∷◌, ◌++◌, Text, codes, eq_text,
  eq_text_iff, if◌then◌else◌, ◌==◌, length, to_lower, trim_space, cut, is_space, All-append, ◌≡◌,
  inl, inr, refl, ap, ◌∙◌, sym, arith, Bool-cases, Option-cases,
}
use n0ding.Hex.{decode_hex, digit_value, cons_byte}
use n0ding.Http.{Url, lookup, delete}
use n0ding.Exchange.{Request}
use n0ding.Pypi.Texts.{IsSolid, trim_space-IsSolid, to_lower-to_lower, Lacks, cut-append, cut-Lacks}
use n0ding.Pypi.Urls.{Urls, Query, query_get, query_set}
use n0ding.Pypi.Proxy.{Proxy}
use n0ding.Pypi.Links.{
  checked_sha, sha256_from_fragment, without_fragment, file_query, visible_name, proxy_file_url,
  unless_empty, is_metadata, sidecar, with_sha, admitted, is_fetchable, file_target_url,
}

-- The part of an URL in front of its fragment, and the query in it (RFC 3986).
abbrev pub before_hash : Option (Text × Text) → Text → Text
before_hash none link = link
before_hash (some (front, fragment)) link = front

abbrev pub query_part : Option (Text × Text) → Option Text
query_part none = none
query_part (some (front, query)) = some query

abbrev pub link_query : Text → Option Text
link_query link = query_part (cut b'?' (before_hash (cut b'#' link) link))

abbrev pub IsPathText : Text → Type 0
IsPathText t = Lacks b'?' t × Lacks b'#' t

link_query-link :
    (front query fragment : Text)
    → IsPathText front
    → Lacks b'#' query
    → link_query (front ++ (b'?' ∷ query ++ unless_empty (codes "#") fragment)) ≡ some query
link_query-link front query [] h hq =
    let whole =
      All-append (λ (d : ℕ). (d == b'#') ≡ false) front (b'?' ∷ query ++ []) h.1
        (refl, rw (append-nil query) hq) in
    rw (cut-Lacks _ b'#' whole, cut-append front (query ++ []) b'?' h.0, append-nil query) refl
link_query-link front query (c ∷ fragment) h hq =
    let whole = All-append (λ (d : ℕ). (d == b'#') ≡ false) front (b'?' ∷ query) h.1 (refl, hq) in
    rw
      (
        ← append_assoc front (b'?' ∷ query) (b'#' ∷ c ∷ fragment),
        cut-append (front ++ b'?' ∷ query) (c ∷ fragment) b'#' whole,
        cut-append front query b'?' h.0,
      )
      refl

digit_solid : (c : ℕ) → is_some (digit_value c) ≡ true → is_space c ≡ false
digit_solid c h = ground (arith, h)

byte_digits :
    (a b : Option ℕ) (s : Option (List ℕ))
    → is_some (cons_byte a b s) ≡ true
    → (is_some a ≡ true) × (is_some b ≡ true) × (is_some s ≡ true)
byte_digits none b s h = absurd (cc)
byte_digits (some a) none s h = absurd (cc)
byte_digits (some a) (some b) none h = absurd (cc)
byte_digits (some a) (some b) (some s) h = (refl, refl, refl)

decode_hex-IsSolid : (s : Text) → is_some (decode_hex s) ≡ true → IsSolid s
unfolding decode_hex
decode_hex-IsSolid [] h = tt
decode_hex-IsSolid (a ∷ []) h = absurd (cc)
decode_hex-IsSolid (a ∷ b ∷ s) h =
    let digits = byte_digits (digit_value a) (digit_value b) (decode_hex s) h in
    (digit_solid a digits.0, (digit_solid b digits.1, decode_hex-IsSolid s digits.2))

-- A sum that has been checked passes the checks again.
IsStable : Text → Type 0
IsStable sha = (target : Url) → with_sha (to_lower (trim_space sha)) target ≡ some (target, sha)

empty-IsStable : IsStable []
unfolding IsStable to_lower eq_text
empty-IsStable target = rw (trim_space-IsSolid [] tt) refl

checked-IsStable :
    (s : Text)
    → (length s == 64) ≡ true
    → is_some (decode_hex s) ≡ true
    → to_lower s ≡ s
    → IsStable s
unfolding IsStable
checked-IsStable s len hex low target = elim (Bool-cases (eq_text s [])) [
  | inl e ↦ rw ((eq_text_iff s []).0 e) (empty-IsStable target)
  | inr e ↦ rw (trim_space-IsSolid s (decode_hex-IsSolid s hex), low, e, len, hex) refl
]

checked_sha-IsStable : (s : Text) → IsStable (checked_sha (to_lower s))
unfolding checked_sha
checked_sha-IsStable s = elim (Bool-cases (length (to_lower s) == 64)) [
  | inr e ↦ rw e empty-IsStable
  | inl len ↦ elim (Bool-cases (is_some (decode_hex (to_lower s)))) [
    | inr e ↦ rw (len, e) empty-IsStable
    | inl hex ↦ rw (len, hex) (checked-IsStable (to_lower s) len hex (to_lower-to_lower s))
  ]
]

sha256_from_fragment-IsStable :
    (urls : Urls) (fragment : Text) → IsStable (sha256_from_fragment urls fragment)
unfolding sha256_from_fragment
sha256_from_fragment-IsStable urls fragment = elim (Option-cases (urls.parse_query fragment)) [
  | inl e ↦ rw e empty-IsStable
  | inr (q, e) ↦ rw e (checked_sha-IsStable (trim_space (query_get q (codes "sha256"))))
]

url_in_query :
    (urls : Urls) (t : Url) (fragment : Text)
    → query_get (file_query urls t fragment) (codes "url") ≡ urls.show (without_fragment t)
unfolding file_query query_get query_set lookup delete eq_text
url_in_query urls t fragment = elim (Bool-cases (eq_text (sha256_from_fragment urls fragment) [])) [
  | inl e ↦ rw e refl
  | inr e ↦ rw e refl
]

sha_in_query :
    (urls : Urls) (t : Url) (fragment : Text)
    → query_get (file_query urls t fragment) (codes "sha256") ≡ sha256_from_fragment urls fragment
unfolding file_query query_get query_set lookup delete eq_text
sha_in_query urls t fragment = elim (Bool-cases (eq_text (sha256_from_fragment urls fragment) [])) [
  | inl e ↦ rw e (sym ((eq_text_iff _ _).0 e))
  | inr e ↦ rw e refl
]

-- What fileTargetURL gives for a request of a link to `t`.
abbrev pub expected_target : Urls → Request → Url → Text → Url × Text
expected_target urls q t fragment =
    if is_metadata q.url_path
    then (if is_metadata t.path then t else sidecar t, [])
    else if is_metadata t.path
    then (t, [])
    else (t, sha256_from_fragment urls fragment)

pub link_query-proxy_file_url :
    (urls : Urls) (p : Proxy) (t : Url) (fragment : Text)
    → ((values : Query) → Lacks b'#' (urls.encode_query values))
    → ((name : Text) → IsPathText (urls.path_escape name))
    → IsPathText p.proxy_file_base_url
    → link_query (proxy_file_url urls p t fragment)
      ≡ some (urls.encode_query (file_query urls t fragment))
unfolding proxy_file_url
link_query-proxy_file_url urls p t fragment no_hash escaped base =
    let name = urls.path_escape (visible_name t) in
    let query = urls.encode_query (file_query urls t fragment) in
    let plain = escaped (visible_name t) in
    let front : IsPathText (p.proxy_file_base_url ++ b'/' ∷ name) = (
      All-append (λ (d : ℕ). (d == b'?') ≡ false) p.proxy_file_base_url (b'/' ∷ name) base.0
          (refl, plain.0),
      All-append (λ (d : ℕ). (d == b'#') ≡ false) p.proxy_file_base_url (b'/' ∷ name) base.1
          (refl, plain.1),
    ) in
    ap link_query (
      sym (
        append_assoc p.proxy_file_base_url (b'/' ∷ name)
          (b'?' ∷ query ++ unless_empty (codes "#") fragment)))
    ∙ link_query-link (p.proxy_file_base_url ++ b'/' ∷ name) query fragment front (no_hash _)

some_inj : {s t : Text} → some s ≡ some t → s ≡ t
some_inj e = ap (λ o. elim o [ none ↦ [] | some a ↦ a ]) e

admitted_as_expected :
    (urls : Urls) (q : Request) (t : Url) (fragment : Text)
    → admitted q (sha256_from_fragment urls fragment) t ≡ some (expected_target urls q t fragment)
unfolding IsStable
admitted_as_expected urls q t fragment = elim (Bool-cases (is_metadata q.url_path)) [
  | inl beside ↦ rw beside refl
  | inr plain ↦ elim (Bool-cases (is_metadata t.path)) [
    | inl is_one ↦ rw (plain, is_one) refl
    | inr file ↦ rw (plain, file) (sha256_from_fragment-IsStable urls fragment t)
  ]
]

-- Let a link be written for a file that may be fetched, and let a request carry the query of the link.
-- Where Query finds what Encode has written, Parse reads back what String writes for the URL of the
-- file, and the texts around the query have none of its delimiters, fileTargetURL finds that file
-- again, with the sum of the fragment. For the metadata beside a file it gives no sum, and the suffix
-- of the request goes to the file if it has none.
pub file_links_lead_back :
    (urls : Urls) (p : Proxy) (t : Url) (fragment : Text) (q : Request)
    → ((key : Text)
        → query_get (urls.query_of (urls.encode_query (file_query urls t fragment))) key
          ≡ query_get (file_query urls t fragment) key)
    → ((values : Query) → Lacks b'#' (urls.encode_query values))
    → ((name : Text) → IsPathText (urls.path_escape name))
    → IsPathText p.proxy_file_base_url
    → urls.parse (urls.show (without_fragment t)) ≡ some (without_fragment t)
    → eq_text (urls.show (without_fragment t)) [] ≡ false
    → is_fetchable p (without_fragment t) ≡ true
    → link_query (proxy_file_url urls p t fragment) ≡ some q.raw_query
    → file_target_url urls p q ≡ some (expected_target urls q (without_fragment t) fragment)
unfolding file_target_url
file_links_lead_back urls p t fragment q inverse no_hash escaped base parses shown ok carried =
    let query : q.raw_query ≡ urls.encode_query (file_query urls t fragment) =
      some_inj (sym carried ∙ link_query-proxy_file_url urls p t fragment no_hash escaped base) in
    rw
      (
        query,
        inverse,
        inverse,
        url_in_query urls t fragment,
        sha_in_query urls t fragment,
        shown,
        parses,
        ok,
      )
      (admitted_as_expected urls q (without_fragment t) fragment)
