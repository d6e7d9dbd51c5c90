-- ===== src/Npm/Status.antt =====
-- internal/npmproxy/proxy.go: Snapshot and SetupSnippet.
use n0ding.Prelude.{ℕ, ◌++◌, Text, codes}
use n0ding.Config.Settings.{Float}
use n0ding.Repository.{Snapshot, hit_ratio_of}
use n0ding.Npm.{Proxy}

-- Given what PublicUpstreamURL shows of the URL that String gives as a text.
unfoldable pub snapshot : (Text → Text) → (ℕ → ℕ → Float) → Proxy → Snapshot
unfolding hit_ratio_of
snapshot public_url quotient p = record {
  name = p.name;
  kind = codes "npm";
  path = p.path;
  upstream = public_url p.upstream;
  requests = p.stats.requests;
  cache_hits = p.stats.hits;
  cache_misses = p.stats.misses;
  errors = p.stats.errors;
  client_canceled = p.stats.client_canceled;
  range_requests = 0;
  hit_ratio = hit_ratio_of quotient p.stats.hits p.stats.misses;
  storage_bytes = p.session.store.bytes;
  cache_objects = p.session.store.objects;
}

unfoldable pub setup_snippet : Proxy → Text
setup_snippet p = codes "npm config set registry " ++ (p.proxy_base_url ++ codes "/\n")
