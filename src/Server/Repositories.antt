-- ===== src/Server/Repositories.antt =====
-- internal/httpserver/server.go: the loop of New over the configured repositories, each of which gets
-- its cache and its proxy.
use n0ding.Prelude.{
  ℤ, pos, leb_ℤ, Bool, not, Option, none, some, List, [], ◌∷◌, Text, codes, eq_text, if◌then◌else◌,
}
use n0ding.Cache.Files.{Files}
use n0ding.Cache.Naming.{Platform}
use n0ding.Cache.Store.{Store}
use n0ding.Cache.Open.{new_store}
use n0ding.Cache.Sweep.{Walk, TempCleanupResult, cleanup_stale_temps}
use n0ding.Cache.Commit.{Session}
use n0ding.Config.{Repository}
use n0ding.Config.Settings.{Config}
use n0ding.Http.{Url}
use n0ding.Npm
use n0ding.Oci
use n0ding.Pypi
use n0ding.Pypi.Urls.{Urls}
use n0ding.Server.Startup.{checked_token}

-- What New meets: the files below a root with the directories that can be made, the clock, net/url,
-- filepath.Join and os.ReadFile.
pub record Host : Type 0 where
  pub platform : Platform
  pub files_below : Text → Files
  pub can_make : Text → Bool
  pub now : ℤ
  pub urls : Urls
  pub join : Text → Text → Text
  pub read_file : Text → Option Text

-- One of the three proxies; that for OCI with the host that it shows.
pub data Proxied : Type 0 where
  npm : Npm.Proxy → Proxied
  oci : Oci.Proxy.Proxy × Text → Proxied
  pypi : Pypi.Proxy.Proxy → Proxied

abbrev cleaned : Store × Option (Walk TempCleanupResult) → Option Store
cleaned (s, none) = none
cleaned (s, some w) = if w.error then none else some s

abbrev swept : Host → ℤ → Option Store → Option Store
swept host age none = none
swept host age (some s) =
    let done = cleaned (cleanup_stale_temps host.platform age s) in
    if not (leb_ℤ age (pos 0)) then done else some s

-- cache.New and CleanupStaleTemps.
unfoldable pub open_store : Host → Config → Repository → Option Store
unfolding new_store cleanup_stale_temps
open_store host c r =
    let root = host.join c.storage.path r.name in
    swept host c.storage.stale_temp_age
      (new_store host.platform (host.can_make root) host.now root (host.files_below root))

abbrev session_of : Store → Session
session_of s = record { store = s; controller = none; reservation = none }

abbrev shown : Host → Option Url → Option Text
shown host none = none
shown host (some u) = some (host.urls.show u)

abbrev npm_of : Option Npm.Proxy → Option Proxied
npm_of none = none
npm_of (some p) = some (npm p)

abbrev oci_of : Option (Oci.Proxy.Proxy × Text) → Option Proxied
oci_of none = none
oci_of (some p) = some (oci p)

abbrev pypi_of : Option Pypi.Proxy.Proxy → Option Proxied
pypi_of none = none
pypi_of (some p) = some (pypi p)

abbrev token_read : Option Text → Option Text
token_read none = none
token_read (some content) = checked_token content

unfoldable pub publish_token : Host → Repository → Option Text
unfolding checked_token
publish_token host r =
    let token = token_read (host.read_file r.publish_token_file) in
    if not (eq_text r.publish_token_file []) then token else some []

abbrev with_token : Host → Config → Repository → Store → Option Text → Option Proxied
with_token host c r s none = none
with_token host c r s (some token) =
    let local_path = host.join (host.join c.storage.path r.name) (codes "private") in
    pypi_of (
      Pypi.Proxy.new_proxy host.urls (host.can_make local_path) (host.files_below local_path)
        (record {
          name = r.name;
          path = r.path;
          upstream = r.upstream;
          public_base_url = c.server.public_base_url;
          ttl = r.ttl;
          forward_authorization = r.forward_authorization;
          publish_token = token;
          allowed_file_origins = r.allowed_file_origins;
          store = some (session_of s);
          local_path = local_path;
        }))

-- The switch on the type.
unfoldable pub open_proxy : Host → Config → Repository → Store → Option Proxied
unfolding publish_token Npm.new_proxy Oci.Opening.new_proxy Pypi.Proxy.new_proxy
open_proxy host c r s =
    let as_npm = npm_of (
      Npm.new_proxy (λ t. shown host (host.urls.parse t))
        (record {
          name = r.name;
          path = r.path;
          upstream = r.upstream;
          public_base_url = c.server.public_base_url;
          ttl = r.ttl;
          forward_authorization = r.forward_authorization;
          store = some (session_of s);
        })) in
    let as_oci = oci_of (
      Oci.Opening.new_proxy host.urls.show host.urls.parse (record {
        name = r.name;
        path = r.path;
        upstream = r.upstream;
        public_base_url = c.server.public_base_url;
        ttl = r.ttl;
        store = some (session_of s);
      })) in
    let as_pypi = with_token host c r s (publish_token host r) in
    if eq_text r.kind (codes "npm")
    then as_npm
    else if eq_text r.kind (codes "oci")
    then as_oci
    else if eq_text r.kind (codes "pypi")
    then as_pypi
    else none

abbrev with_store : Host → Config → Repository → Option Store → Option Proxied
with_store host c r none = none
with_store host c r (some s) = open_proxy host c r s

abbrev cons_proxied : Option Proxied → Option (List Proxied) → Option (List Proxied)
cons_proxied none ps = none
cons_proxied (some p) none = none
cons_proxied (some p) (some ps) = some (p ∷ ps)

-- The loop: `none` for an error of any turn.
unfoldable pub open_repositories : Host → Config → List Repository → Option (List Proxied)
unfolding open_store open_proxy
open_repositories host c [] = some []
open_repositories host c (r ∷ rs) =
    let rest = open_repositories host c rs in
    cons_proxied (with_store host c r (open_store host c r)) rest

-- What a proxy registers at the mux, for a repository with this path.
unfoldable pub routes : Text → Proxied → List Text
routes path (npm p) = path ∷ []
routes path (oci p) = path ∷ []
routes path (pypi p) = path ∷ p.file_path ∷ p.upload_path ∷ p.package_path ∷ []
