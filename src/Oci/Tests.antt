-- ===== src/Oci/Tests.antt =====
-- A request for a tag, and one for the list of the tags.
use n0ding.Prelude.{
  ℕ, ◌<◌, pos, leb, true, false, none, some, is_some, List, [], ◌∷◌, Text, codes, eq_text,
  equal_fold, length, All, after_first, ◌≡◌, refl, ◌⊎◌, ◌↔◌, arith,
}
use n0ding.Http.{get, values, lookup, canonical}
use n0ding.Cache.Naming.{Platform}
use n0ding.Cache.Writer.{bytes_of}
use n0ding.Oci.Digest.{classify, cache_ttl, decode_sha256, verify_sum, equal_bytes}
use n0ding.Exchange.{Request, Incoming, answered, first_check, Env, Response}
use n0ding.Oci.Proxy.{Proxy, authorize_cache_hit, target_url}
use n0ding.Oci.Proxy.Miss.{cache_manifest, max_manifest_bytes}
use n0ding.Oci.Serve.{serve_http, is_cacheable_request}
use n0ding.Oci.Sums.{equal_bytes_iff, immutable_only_by_digest}
use n0ding.Oci.Integrity.{
  IsAuthorized, IsGranted, authorized_digest, hits_need_permission, uncached_requests_keep_store,
}
use n0ding.Oci.Manifests.{manifest_is_verified}

abbrev digest : Text
digest = codes "sha256:0101010101010101010101010101010101010101010101010101010101010101"

abbrev upper_digest : Text
upper_digest = codes "SHA256:0101010101010101010101010101010101010101010101010101010101010101"

abbrev reply : Incoming
reply = record {
  status = pos 200;
  header = (codes "Docker-Content-Digest", upper_digest ∷ []) ∷ [];
  body = record {
    chunks =
        record { data_bytes = codes "{}"; taken = 2; downstream_fails = false; cache_fails = false }
        ∷ [];
    fails = false;
  };
}

abbrev platform : Platform
platform = record {
  marshal = λ m. codes "{}";
  unmarshal = λ c. none;
  hash = λ k. codes "ab";
  fails = λ op path. false;
}

abbrev env : Env
env = record {
  platform = platform;
  upstream = λ attempt method target header. answered reply;
  parse_url = λ url query. some url;
  sum = λ content. [];
  media_type = λ t. none;
  canceled = false;
  done = false;
  hangup = none;
  chunks_of = λ content. [];
  free_bytes = none;
  body_suffix = codes "7";
  metadata_suffix = codes "8";
  meanwhile = λ s. s;
}

abbrev proxy : Proxy
proxy = record {
  name = codes "oci";
  path = codes "/v2/";
  upstream = codes "https://registry.example";
  ttl = pos 1000;
  stats = record {
    requests = 0;
    hits = 0;
    misses = 0;
    errors = 0;
    client_canceled = 0;
    range_requests = 0;
  };
  session = record {
    store = record {
      root = codes "/cache";
      files = [];
      now = pos 10;
      bytes = pos 0;
      objects = pos 0;
      active_temps = [];
    };
    controller = none;
    reservation = none;
  };
}

abbrev by_path : Text → Request
by_path path = record {
  method = codes "GET";
  url_path = path;
  escaped_path = path;
  raw_query = [];
  header = [];
}

abbrev tag : Request
tag = by_path (codes "/v2/alpine/manifests/3.20")

abbrev tags : Request
tags = by_path (codes "/v2/alpine/tags/list")

abbrev unwritten : Response
unwritten = record { header = []; status = none; body = []; error = none }

hits_need_permission_example :
    ((serve_http env tag proxy unwritten).0.stats.hits ≡ proxy.stats.hits)
    ⊎ ((target : Text) × (target_url env proxy tag ≡ some target) × IsAuthorized env tag target)
hits_need_permission_example = hits_need_permission env tag proxy unwritten

granted_test :
    authorize_cache_hit env first_check tag (codes "https://registry.example/x") digest ≡ true
unfolding authorize_cache_hit get values lookup canonical equal_fold eq_text
granted_test = refl

authorized_digest_example :
    (authorize_cache_hit env first_check tag (codes "https://registry.example/x") digest ≡ true)
    ↔ IsGranted env first_check tag (codes "https://registry.example/x") digest
authorized_digest_example =
    authorized_digest env first_check tag (codes "https://registry.example/x") digest

not_cacheable : is_cacheable_request tags (classify tags.url_path) ≡ false
unfolding classify after_first
not_cacheable = refl

uncached_requests_keep_store_example :
    (serve_http env tags proxy unwritten).0.session ≡ proxy.session
uncached_requests_keep_store_example =
    uncached_requests_keep_store env tags proxy unwritten not_cacheable

manifest_is_verified_example :
    ((cache_manifest env reply [] [] (codes "key") digest proxy unwritten).0.session
      ≡ proxy.session)
    ⊎ ((reply.body.fails ≡ false)
        × (leb (length (bytes_of reply.body.chunks)) max_manifest_bytes ≡ true)
        × (verify_sum (env.sum (bytes_of reply.body.chunks)) digest ≡ true))
manifest_is_verified_example =
    manifest_is_verified env reply [] [] (codes "key") digest proxy unwritten

abbrev octets : List ℕ
octets = 7 ∷ 255 ∷ []

octets_range : All (λ a. a < 256) octets
octets_range = ground arith

equal_bytes_iff_example : (equal_bytes octets octets ≡ true) ↔ (octets ≡ octets)
equal_bytes_iff_example = equal_bytes_iff octets octets octets_range octets_range

immutable_only_by_digest_example :
    (cache_ttl (pos 5) (classify tag.url_path).kind (classify tag.url_path).requested_digest
      ≡ pos 5)
    ⊎ (is_some (decode_sha256 (classify tag.url_path).requested_digest) ≡ true)
immutable_only_by_digest_example = immutable_only_by_digest (pos 5) tag.url_path
