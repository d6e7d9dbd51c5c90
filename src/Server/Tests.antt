-- ===== src/Server/Tests.antt =====
-- A store with one entry of three bytes, under a budget of one byte.
use n0ding.Prelude.{
  ℕ, pos, none, true, false, some, List, [], ◌∷◌, ◌++◌, Text, codes, eq_text, int64, ◌-ℤ◌, ◌+ℤ◌,
  ◌≡◌, refl, ◌↔◌,
}
use n0ding.Storage
use n0ding.Storage.{Controller}
use n0ding.Http.{Header, get}
use n0ding.Cache.Files.{FilePath, File}
use n0ding.Cache.Naming.{Metadata, Platform}
use n0ding.Cache.Store.{Store, Candidate}
use n0ding.Server.{admitted, bearer, operator_gc}
use n0ding.Exchange.{format_int, digits_of}
use n0ding.Server.Metrics.{gc_lines, bool_metric}
use n0ding.Server.Startup.{
  start_controller, committed_at_start, cache_usage, private_usage, add_usage,
}
use n0ding.Server.Operator.{operator_gc_admits_iff}

abbrev hash : Text
hash = codes "aa00000000000000000000000000000000000000000000000000000000000000"

abbrev entry_metadata : Metadata
entry_metadata = record {
  status = pos 200;
  header = [];
  stored_at = pos 5;
  content_bytes = pos 3;
  content_digest = [];
  body_file = [];
}

abbrev platform : Platform
platform = record {
  marshal = λ m. codes "{}";
  unmarshal = λ c. some entry_metadata;
  hash = λ k. hash;
  fails = λ op path. false;
}

abbrev metadata_path : FilePath
metadata_path = record { dir = codes "/cache/aa"; name = hash ++ codes ".json" }

abbrev body_path : FilePath
body_path = record { dir = codes "/cache/aa"; name = hash ++ codes ".body" }

abbrev file : List ℕ → File
file content = record { content = content; mod_time = pos 6; regular = true }

abbrev one_entry : Store
one_entry = record {
  root = codes "/cache";
  files = (metadata_path, file (codes "{}")) ∷ (body_path, file (1 ∷ 2 ∷ 3 ∷ [])) ∷ [];
  now = pos 10;
  bytes = pos 3;
  objects = pos 1;
  active_temps = [];
}

abbrev budget : Controller
budget = record {
  max_bytes = pos 1;
  high_basis_points = pos 10000;
  low_basis_points = pos 0;
  min_free_bytes = pos 0;
  committed_bytes = pos 3;
  reserved_bytes = pos 0;
  bypass_objects = pos 0;
  bypass_bytes = pos 0;
}

abbrev items : List (ℕ × Candidate)
items =
    (
      0,
      record {
        metadata_path = metadata_path;
        body_path = body_path;
        bytes = pos 3;
        last_used = pos 6;
      },
    )
    ∷ []

abbrev operator_header : Header
operator_header = (codes "Authorization", codes "Bearer s3cret" ∷ []) ∷ []

operator_gc_admits_iff_example :
    (operator_gc (codes "s3cret") (codes "/api/v1/operator/gc") (codes "POST") operator_header
      ≡ admitted)
    ↔ ((codes "/api/v1/operator/gc" ≡ codes "/api/v1/operator/gc")
        × (eq_text (codes "s3cret") [] ≡ false)
        × (codes "POST" ≡ codes "POST")
        × (get operator_header (codes "Authorization") ≡ bearer ++ codes "s3cret"))
operator_gc_admits_iff_example =
    operator_gc_admits_iff (codes "s3cret") (codes "/api/v1/operator/gc") (codes "POST")
      operator_header

abbrev tiny_controller : Controller
tiny_controller = Storage.new_controller (pos 100) (pos 9000) (pos 7500) (pos 0) (pos 3)

gc_test :
    gc_lines (record { state = codes "idle"; current = none; last = none })
    ≡ codes
        "# HELP n0ding_gc_running Whether a garbage collection run is active.\n# TYPE n0ding_gc_running gauge\nn0ding_gc_running 0\n"
unfolding gc_lines bool_metric format_int digits_of eq_text
gc_test = refl

start_test :
    start_controller (pos 100) (pos 9000) (pos 7500) (pos 0) [] (some (pos 1) ∷ some (pos 2) ∷ [])
    ≡ some (some tiny_controller)
unfolding start_controller committed_at_start cache_usage private_usage add_usage
    Storage.new_controller int64 ◌-ℤ◌ ◌+ℤ◌
start_test = refl
