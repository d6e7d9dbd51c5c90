-- ===== src/Oci/Opening.antt =====
-- internal/ociproxy/proxy.go: Options and New.
use n0ding.Prelude.{ℤ, not, ◌||◌, Option, none, some, [], Text, codes, eq_text, if◌then◌else◌}
use n0ding.Http.{Url}
use n0ding.Cache.Commit.{Session}
use n0ding.Oci.Proxy.{Proxy}

pub record Options : Type 0 where
  pub name : Text
  pub path : Text
  pub upstream : Text
  pub public_base_url : Text
  pub ttl : ℤ
  pub store : Option Session

abbrev with_store : (Url → Text) → Options → Url → Url → Option Session → Option (Proxy × Text)
with_store show o upstream public none = none
with_store show o upstream public (some session) =
    if not (eq_text o.path (codes "/v2/"))
    then none
    else some (
      record {
        name = o.name;
        path = o.path;
        upstream = show upstream;
        ttl = o.ttl;
        stats = record {
          requests = 0;
          hits = 0;
          misses = 0;
          errors = 0;
          client_canceled = 0;
          range_requests = 0;
        };
        session = session;
      },
      public.host,
    )

abbrev with_public : (Url → Text) → Options → Url → Option Url → Option (Proxy × Text)
with_public show o upstream none = none
with_public show o upstream (some public) =
    let opened = with_store show o upstream public o.store in
    if eq_text public.host [] then none else opened

abbrev with_upstream :
    (Url → Text) → (Text → Option Url) → Options → Option Url → Option (Proxy × Text)
with_upstream show parse o none = none
with_upstream show parse o (some upstream) =
    let opened = with_public show o upstream (parse o.public_base_url) in
    if eq_text upstream.scheme [] || eq_text upstream.host [] then none else opened

-- New: the proxy, and its field `registry`, which only SetupSnippet reads.
unfoldable pub new_proxy : (Url → Text) → (Text → Option Url) → Options → Option (Proxy × Text)
new_proxy show parse o = with_upstream show parse o (parse o.upstream)
