-- ===== src/Oci/Status.antt =====
-- internal/ociproxy/proxy.go: Snapshot and SetupSnippet.
use n0ding.Prelude.{ℕ, ◌++◌, Text, codes}
use n0ding.Config.Settings.{Float}
use n0ding.Repository.{Snapshot, hit_ratio_of}
use n0ding.Oci.Proxy.{Proxy}

-- Given what PublicUpstreamURL shows of the URL that String gives as a text.
unfoldable pub snapshot : (Text → Text) → (ℕ → ℕ → Float) → Proxy → Snapshot
unfolding hit_ratio_of
snapshot public_url quotient p = record {
  name = p.name;
  kind = codes "oci";
  path = p.path;
  upstream = public_url p.upstream;
  requests = p.stats.requests;
  cache_hits = p.stats.hits;
  cache_misses = p.stats.misses;
  errors = p.stats.errors;
  client_canceled = p.stats.client_canceled;
  range_requests = p.stats.range_requests;
  hit_ratio = hit_ratio_of quotient p.stats.hits p.stats.misses;
  storage_bytes = p.session.store.bytes;
  cache_objects = p.session.store.objects;
}

-- `registry` is the host of the public URL.
unfoldable pub setup_snippet : Text → Text
setup_snippet registry = codes "docker pull " ++ (registry ++ codes "/library/alpine:3.20\n")
