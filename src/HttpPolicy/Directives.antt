-- ===== src/HttpPolicy/Directives.antt =====
-- internal/httppolicy/policy.go: Cache-Control, Pragma and Vary, and the two decisions on them.
use n0ding.Prelude.{
  ◌≡◌, refl, Bool, true, false, not, ◌&&◌, ◌||◌, List, [], ◌∷◌, ◌++◌, Text, codes, eq_text,
  mem_text, split, trim_space, trim, ◌==◌, to_lower, equal_fold, cut, map, if◌then◌else◌, Option,
  none, some,
}
use n0ding.Http.{Header, canonical, values, is_present}
use n0ding.HttpPolicy.{sensitive_response_headers}

pub record Directive : Type 0 where
  pub name : Text
  pub value : Text

-- strings.Cut(part, "="): without a "=" the value is empty.
abbrev cut_directive : Text → Option (Text × Text) → Directive
cut_directive part none = record { name = to_lower (trim_space part); value = trim_space [] }
cut_directive part (some (name, value)) = record {
  name = to_lower (trim_space name);
  value = trim_space value;
}

unfoldable pub parse_directive : Text → Directive
unfolding to_lower trim_space cut
parse_directive part = cut_directive (trim_space part) (cut b'=' (trim_space part))

-- The inner loop, over the parts of one value; parts without a name are skipped.
unfoldable pub directives_in : List Text → List Directive
directives_in [] = []
directives_in (part ∷ parts) =
    let rest = directives_in parts in
    let d = parse_directive part in if eq_text d.name [] then rest else d ∷ rest

unfoldable pub cache_directives : List Text → List Directive
cache_directives [] = []
cache_directives (value ∷ vs) = directives_in (split b',' value) ++ cache_directives vs

-- The loop of RequestBypassesCache, with its return.
abbrev asks_to_bypass : Directive → Bool
asks_to_bypass d =
    eq_text d.name (codes "no-cache")
    || (eq_text d.name (codes "no-store")
        || (eq_text d.name (codes "max-age")
            && eq_text (trim (λ c. c == b'"') d.value) (codes "0")))

unfoldable pub any_bypass : List Directive → Bool
any_bypass [] = false
any_bypass (d ∷ ds) = asks_to_bypass d || any_bypass ds

unfoldable pub token_in : List Text → Text → Bool
token_in [] token = false
token_in (part ∷ parts) token = equal_fold (trim_space part) token || token_in parts token

unfoldable pub contains_token : List Text → Text → Bool
contains_token [] token = false
contains_token (value ∷ vs) token = token_in (split b',' value) token || contains_token vs token

abbrev pub cache_control : Text
cache_control = codes "Cache-Control"

abbrev pub pragma : Text
pragma = codes "Pragma"

unfoldable pub request_bypasses_cache : Header → Bool
request_bypasses_cache header =
    any_bypass (cache_directives (values header cache_control))
    || contains_token (values header pragma) (codes "no-cache")

-- The loop of hasCacheDirective; `wanted` are the names in lower case.
unfoldable pub any_named : List Text → List Directive → Bool
any_named wanted [] = false
any_named wanted (d ∷ ds) = mem_text d.name wanted || any_named wanted ds

unfoldable pub has_cache_directive : Header → List Text → Bool
has_cache_directive header names =
    any_named (map to_lower names) (cache_directives (values header cache_control))

abbrev cookie_headers : List Text
cookie_headers = codes "Cookie" ∷ codes "Set-Cookie" ∷ codes "Set-Cookie2" ∷ []

unfoldable pub is_cookie_header : Text → Bool
unfolding mem_text canonical
is_cookie_header name = mem_text (canonical name) cookie_headers

-- The loop over sensitiveResponseHeaders: none of them forbids storage.
unfoldable pub sensitive_allow : Bool → Header → List Text → Bool
sensitive_allow public response [] = true
sensitive_allow public response (name ∷ names) =
    (not (is_present (canonical name) response) || (public && is_cookie_header name))
    && sensitive_allow public response names

-- The inner loop over the names in one Vary value.
unfoldable pub vary_names_allowed : List Text → List Text → Bool
vary_names_allowed allowed [] = true
vary_names_allowed allowed (name ∷ names) =
    let key = canonical (trim_space name) in
    (eq_text key [] || (not (eq_text key (codes "*")) && mem_text key allowed))
    && vary_names_allowed allowed names

unfoldable pub vary_allowed : List Text → List Text → Bool
vary_allowed allowed [] = true
vary_allowed allowed (value ∷ vs) =
    vary_names_allowed allowed (split b',' value) && vary_allowed allowed vs

abbrev pub no_store_names : List Text
no_store_names = codes "no-store" ∷ []

abbrev pub unstorable_names : List Text
unstorable_names = codes "no-cache" ∷ codes "no-store" ∷ codes "private" ∷ []

abbrev pub public_names : List Text
public_names = codes "public" ∷ []

unfoldable pub response_allows_storage : Header → Header → List Text → Bool
response_allows_storage request response allowed_vary =
    if has_cache_directive request no_store_names
    then false
    else if has_cache_directive response unstorable_names
    then false
    else if contains_token (values response pragma) (codes "no-cache")
    then false
    else if sensitive_allow (has_cache_directive response public_names) response
        sensitive_response_headers
    then vary_allowed (map canonical allowed_vary) (values response (codes "Vary"))
    else false

bypass_test :
    request_bypasses_cache ((codes "Cache-Control", codes "foo, Max-Age=\"0\"" ∷ []) ∷ []) ≡ true
unfolding request_bypasses_cache cache_directives directives_in parse_directive eq_text split
    any_bypass trim values contains_token
bypass_test = refl

storage_test :
    (response_allows_storage []
        ((codes "Vary", codes "accept, ,Accept-Encoding" ∷ []) ∷ [])
        (codes "Accept" ∷ codes "Accept-Encoding" ∷ [])
      ≡ true)
    × (response_allows_storage [] ((codes "Set-Cookie", codes "a=b" ∷ []) ∷ []) [] ≡ false)
unfolding response_allows_storage has_cache_directive any_named cache_directives directives_in
    parse_directive contains_token token_in sensitive_allow is_present is_cookie_header vary_allowed
    vary_names_allowed split values equal_fold mem_text
storage_test = (refl, refl)
