-- ===== src/Server/Pages.antt =====
-- internal/httpserver/server.go: the pages for status, setup and metrics, and what operatorGC answers.
-- The encoder of JSON and the template of the dashboard are parameters.
use n0ding.Prelude.{
  ℕ, ℤ, pos, Bool, not, ◌&&◌, Option, none, some, is_some, List, [], ◌∷◌, Text, codes, eq_text,
  if◌then◌else◌, cut, trim_prefix,
}
use n0ding.Http.{set}
use n0ding.Storage
use n0ding.Storage.{Controller}
use n0ding.Maintenance
use n0ding.Maintenance.{Run}
use n0ding.Repository.{Snapshot}
use n0ding.Exchange.{Request, Response, http_error}

-- What a repository shows at one time, under the name by which the server knows it.
pub record Handler : Type 0 where
  pub name : Text
  pub snapshot : Snapshot
  pub setup_snippet : Text

pub record StatusResponse : Type 0 where
  pub version : Text
  pub status : Text
  pub uptime : Text
  pub repositories : List Snapshot

pub record OperatorStorage : Type 0 where
  pub snapshot : Option Storage.Snapshot
  pub filesystem_free_bytes : ℤ
  pub bounded : Bool

pub record OperatorResponse : Type 0 where
  pub generated_at : ℤ
  pub version : Text
  pub status : Text
  pub uptime_seconds : ℤ
  pub storage : OperatorStorage
  pub gc : Maintenance.Snapshot
  pub repositories : List Snapshot

-- What the pages read: the server's fields, the clock with the times derived from it, the free bytes of
-- the file system, the encoders, strconv.Quote and the template.
pub record View : Type 0 where
  pub version : Text
  pub public_url : Text
  pub handlers : List Handler
  pub storage : Option Controller
  pub gc : Maintenance.Snapshot
  pub now : ℤ
  pub uptime : Text
  pub uptime_seconds : ℤ
  pub free_bytes : Option ℤ
  pub encode_status : StatusResponse → List ℕ
  pub encode_operator : OperatorResponse → List ℕ
  pub encode_run : Run → List ℕ
  pub quote : Text → Text
  pub dashboard : Text → Text → List ℕ

abbrev snapshots : List Handler → List Snapshot
snapshots [] = []
snapshots (h ∷ hs) = h.snapshot ∷ snapshots hs

abbrev not_found : Response → Response
not_found w = http_error (pos 404) (codes "404 page not found") w

abbrev page : Text → List ℕ → Response → Response
page content_type content w = record w {
  header = set (codes "Content-Type") content_type w.header;
  body = content;
}

unfoldable pub write_json : List ℕ → Response → Response
write_json content w = page (codes "application/json") content w

unfoldable pub health : Request → Response → Response
health q w =
    if not (eq_text q.url_path (codes "/healthz"))
    then not_found w
    else page (codes "application/json") (codes "{\"status\":\"ok\"}") w

unfoldable pub status : View → Request → Response → Response
unfolding write_json
status v q w =
    if not (eq_text q.url_path (codes "/api/v1/status"))
    then not_found w
    else write_json
        (v.encode_status (record {
          version = v.version;
          status = codes "ok";
          uptime = v.uptime;
          repositories = snapshots v.handlers;
        }))
        w

abbrev storage_snapshot : Option Controller → Option Storage.Snapshot
storage_snapshot none = none
storage_snapshot (some c) = some (Storage.snapshot c)

abbrev free_or_zero : Option ℤ → ℤ
free_or_zero none = pos 0
free_or_zero (some n) = n

unfoldable pub operator_response : View → OperatorResponse
operator_response v = record {
  generated_at = v.now;
  version = v.version;
  status = if is_some v.storage && is_some v.free_bytes then codes "ok" else codes "degraded";
  uptime_seconds = v.uptime_seconds;
  storage = record {
    snapshot = storage_snapshot v.storage;
    filesystem_free_bytes = free_or_zero v.free_bytes;
    bounded = is_some v.storage;
  };
  gc = v.gc;
  repositories = snapshots v.handlers;
}

unfoldable pub operator_status : View → Request → Response → Response
unfolding operator_response write_json
operator_status v q w =
    if not (eq_text q.url_path (codes "/api/v1/operator"))
    then not_found w
    else if not (eq_text q.method (codes "GET")) && not (eq_text q.method (codes "HEAD"))
    then http_error (pos 405) (codes "method not allowed")
        (record w { header = set (codes "Allow") (codes "GET, HEAD") w.header })
    else write_json (v.encode_operator (operator_response v)) w

-- The answer of operatorGC behind gc.Run.
unfoldable pub gc_answer : View → Run → Bool → Response → Response
unfolding write_json
gc_answer v run accepted w = write_json (v.encode_run run) (
    if not accepted
    then record w { status = some (pos 409) }
    else if not (eq_text run.error [])
    then record w { status = some (pos 500) }
    else w)

-- s.byName[name]
unfoldable pub find_handler : Text → List Handler → Option Handler
find_handler name [] = none
find_handler name (h ∷ hs) =
    let rest = find_handler name hs in if eq_text h.name name then some h else rest

abbrev setup_page : Response → Option Handler → Response
setup_page w none = not_found w
setup_page w (some h) = page (codes "text/plain; charset=utf-8") h.setup_snippet w

abbrev setup_action : View → Response → Option (Text × Text) → Response
setup_action v w none = not_found w
setup_action v w (some (name, action)) =
    if not (eq_text action (codes "setup"))
    then not_found w
    else setup_page w (find_handler name v.handlers)

unfoldable pub repository_api : View → Request → Response → Response
unfolding find_handler
repository_api v q w =
    setup_action v w (cut b'/' (trim_prefix q.url_path (codes "/api/v1/repositories/")))

unfoldable pub dashboard_page : View → Request → Response → Response
dashboard_page v q w =
    if not (eq_text q.url_path (codes "/"))
    then not_found w
    else page (codes "text/html; charset=utf-8") (v.dashboard v.version v.public_url) w

-- The header fields that securityHeaders sets before the handler runs.
unfoldable pub security_headers : (Request → Response → Response) → Request → Response → Response
security_headers next q w = next q (record w {
  header = set (codes "X-Content-Type-Options") (codes "nosniff") (
      set (codes "Referrer-Policy") (codes "no-referrer") (
        set (codes "Content-Security-Policy")
          (codes "default-src 'self'; style-src 'unsafe-inline'; script-src 'unsafe-inline'")
          w.header));
})
