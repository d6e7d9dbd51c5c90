-- ===== src/HttpPolicy/Filters.antt =====
-- What each filter leaves of a field, whatever the names and the order of the fields.
use mathlib.Core.List.{append_assoc, append-nil}
use n0ding.Prelude.{
  Bool, not, ◌&&◌, ◌||◌, List, [], ◌∷◌, ◌++◌, Text, codes, eq_text, eq_text_iff, mem_text,
  if◌then◌else◌, ◌≡◌, refl, ap, ◌∙◌, arith, Bool-cases, inl, inr,
}
use n0ding.Http.{Header, canonical, lookup, add_all, del}
use n0ding.Http.Fields.{lookup-add_all, lookup-delete}
use n0ding.HttpPolicy.{
  is_hop_by_hop, blocked_request_header, named_connection_headers, is_dropped, forward_from,
  authorization, forward_request_headers, response_from, response_headers, del_all,
  cache_metadata_headers, sensitive_response_headers,
}

-- The values of all fields whose canonical name is `key`.
abbrev pub field_values : Text → Header → List Text
field_values key [] = []
field_values key ((name, vs) ∷ h) =
    if eq_text (canonical name) key then vs ++ field_values key h else field_values key h

-- One round of a filter's loop, for any test of the canonical name.
filter_round :
    (dropped : Text → Bool) (name : Text) (vs : List Text) (target : Header) (key : Text)
    (rest : List Text)
    → lookup key (if dropped (canonical name) then target else add_all (canonical name) vs target)
        ++ (if dropped key then [] else rest)
      ≡ lookup key target
        ++ (if dropped key then [] else if eq_text (canonical name) key then vs ++ rest else rest)
filter_round dropped name vs target key rest = elim (Bool-cases (eq_text (canonical name) key)) [
  | inl e ↦ ground (
    arith,
    lookup-add_all name vs key target,
    append_assoc (lookup key target) vs rest,
    ap dropped ((eq_text_iff (canonical name) key).0 e),
  )
  | inr e ↦ ground (arith, lookup-add_all name vs key target)
]

forward_from_lem :
    (named : List Text) (fa : Bool) (source target : Header) (key : Text)
    → lookup key (forward_from named fa source target)
      ≡ lookup key target ++ (if is_dropped named fa key then [] else field_values key source)
unfolding forward_from
forward_from_lem named fa [] target key = ground (arith, append-nil (lookup key target))
forward_from_lem named fa ((name, vs) ∷ source) target key =
    forward_from_lem named fa source _ key
    ∙ filter_round (is_dropped named fa) name vs target key (field_values key source)

abbrev response_dropped : List Text → Text → Bool
response_dropped named key = is_hop_by_hop key || mem_text key named

response_from_lem :
    (named : List Text) (source target : Header) (key : Text)
    → lookup key (response_from named source target)
      ≡ lookup key target ++ (if response_dropped named key then [] else field_values key source)
unfolding response_from
response_from_lem named [] target key = ground (arith, append-nil (lookup key target))
response_from_lem named ((name, vs) ∷ source) target key =
    response_from_lem named source _ key
    ∙ filter_round (response_dropped named) name vs target key (field_values key source)

-- ForwardRequestHeaders leaves under every name what the target had there, and behind it all values
-- that the client sent under that name, unless the name is hop-by-hop, named by the client's
-- Connection field, one of the blocked credentials, or Authorization that is not to be forwarded.
pub forward_request_headers_lem :
    (target source : Header) (fa : Bool) (key : Text)
    → lookup key (forward_request_headers target source fa)
      ≡ lookup key target
        ++ (if is_hop_by_hop key
              || (mem_text key (named_connection_headers source)
                  || (blocked_request_header key || (eq_text key authorization && not fa)))
            then []
            else field_values key source)
unfolding forward_request_headers is_dropped
forward_request_headers_lem target source fa key =
    forward_from_lem (named_connection_headers source) fa source target key

-- ResponseHeaders leaves under every name all values of the response under it, unless the name is
-- hop-by-hop or named by the response's Connection field.
pub response_headers_lem :
    (source : Header) (key : Text)
    → lookup key (response_headers source) ≡ (
        if is_hop_by_hop key || mem_text key (named_connection_headers source)
        then []
        else field_values key source)
unfolding response_headers lookup
response_headers_lem source key = response_from_lem (named_connection_headers source) source [] key

-- The canonical forms of some names.
abbrev canonical_all : List Text → List Text
canonical_all [] = []
canonical_all (n ∷ ns) = canonical n ∷ canonical_all ns

lookup-del_all :
    (names : List Text) (h : Header) (key : Text)
    → lookup key (del_all names h)
      ≡ (if mem_text key (canonical_all names) then [] else lookup key h)
unfolding del_all mem_text del
lookup-del_all [] h key = refl
lookup-del_all (n ∷ ns) h key = ground (
  arith,
  lookup-del_all ns (del n h) key,
  lookup-delete (canonical n) key h,
  eq_text_iff key (canonical n),
  eq_text_iff (canonical n) key,
)

abbrev pub not_persisted : List Text
not_persisted =
    codes "Authentication-Info"
    ∷ codes "Authorization"
    ∷ codes "Cookie"
    ∷ codes "Proxy-Authentication-Info"
    ∷ codes "Proxy-Authorization"
    ∷ codes "Set-Cookie"
    ∷ codes "Set-Cookie2"
    ∷ codes "Www-Authenticate"
    ∷ codes "Age"
    ∷ codes "X-N0ding-Cache"
    ∷ []

abbrev deleted_names : List Text
deleted_names = sensitive_response_headers ++ codes "Age" ∷ codes "X-N0ding-Cache" ∷ []

canonical_deleted : canonical_all deleted_names ≡ not_persisted
unfolding canonical
canonical_deleted = refl

cache_metadata_headers-del_all :
    (source : Header)
    → cache_metadata_headers source ≡ del_all deleted_names (response_headers source)
unfolding cache_metadata_headers del_all
cache_metadata_headers-del_all source = refl

-- CacheMetadataHeaders: nothing is left under a credential or challenge field, Age or
-- X-N0ding-Cache, nor under a hop-by-hop name or one named by the Connection field; under every other
-- name all values of the response are kept.
pub cache_metadata_headers_lem :
    (source : Header) (key : Text)
    → lookup key (cache_metadata_headers source) ≡ (
        if mem_text key not_persisted
          || (is_hop_by_hop key || mem_text key (named_connection_headers source))
        then []
        else field_values key source)
cache_metadata_headers_lem source key =
    rw
      (
        cache_metadata_headers-del_all source,
        lookup-del_all deleted_names (response_headers source) key,
        canonical_deleted,
        response_headers_lem source key,
      )
      (ground arith)
