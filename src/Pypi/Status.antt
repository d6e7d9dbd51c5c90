-- ===== src/Pypi/Status.antt =====
-- internal/pypiproxy/proxy.go: Snapshot and SetupSnippet.
use n0ding.Prelude.{ℕ, some, ◌++◌, Text, codes}
use n0ding.Http.{Url}
use n0ding.HttpPolicy.Logging.{public_upstream_url}
use n0ding.Config.Settings.{Float}
use n0ding.Repository.{Snapshot, hit_ratio_of}
use n0ding.Pypi.Proxy.{Proxy}

-- Given URL.String.
unfoldable pub snapshot : (Url → Text) → (ℕ → ℕ → Float) → Proxy → Snapshot
unfolding hit_ratio_of public_upstream_url
snapshot show quotient p = record {
  name = p.name;
  kind = codes "pypi";
  path = p.path;
  upstream = public_upstream_url show (some p.upstream);
  requests = p.stats.requests;
  cache_hits = p.stats.hits;
  cache_misses = p.stats.misses;
  errors = p.stats.errors;
  client_canceled = p.stats.client_canceled;
  range_requests = p.stats.range_requests;
  hit_ratio = hit_ratio_of quotient p.stats.hits p.stats.misses;
  storage_bytes = p.session.store.bytes;
  cache_objects = p.session.store.objects;
}

unfoldable pub setup_snippet : Proxy → Text
setup_snippet p =
    codes "python -m pip install --index-url "
    ++ (p.proxy_simple_base_url
        ++ (codes "/ PACKAGE\n"
            ++ (codes "uv pip install --index-url "
                ++ (p.proxy_simple_base_url ++ codes "/ PACKAGE\n"))))
