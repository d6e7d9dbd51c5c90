-- ===== src/Server/Metrics.antt =====
-- internal/httpserver/server.go: the page /metrics in the text format of Prometheus.
use n0ding.Prelude.{
  ℕ, ◌/◌, ℤ, pos, Bool, true, false, not, Option, none, some, List, [], ◌∷◌, ◌++◌, Text, String,
  codes, eq_text, if◌then◌else◌,
}
use n0ding.Http.{set}
use n0ding.Storage
use n0ding.Storage.{Controller}
use n0ding.Maintenance
use n0ding.Maintenance.{Run}
use n0ding.Exchange.{Request, Response, http_error, format_int}
use n0ding.Repository.{Snapshot}
use n0ding.Server.Pages.{Handler, View}

-- Two lines: what a metric is, and its kind.
abbrev described : String → String → String → Text
described name help kind =
    codes "# HELP "
    ++ (codes name
        ++ (codes " "
            ++ (codes help
                ++ (codes "\n# TYPE "
                    ++ (codes name ++ (codes " " ++ (codes kind ++ codes "\n")))))))

abbrev valued : String → ℤ → Text
valued name n = codes name ++ (codes " " ++ (format_int n ++ codes "\n"))

abbrev labelled : String → Text → ℤ → Text
labelled name label n =
    codes name ++ (codes "{" ++ (label ++ (codes "} " ++ (format_int n ++ codes "\n"))))

unfoldable pub bool_metric : Bool → ℤ
bool_metric true = pos 1
bool_metric false = pos 0

unfoldable pub repository_header : Text
repository_header =
    described "n0ding_repository_requests_total" "Repository requests received." "counter"
    ++ (described "n0ding_repository_cache_hits_total" "Repository requests served from cache."
          "counter"
        ++ (described "n0ding_repository_cache_misses_total" "Repository cache misses." "counter"
            ++ (described "n0ding_repository_errors_total" "Repository request errors." "counter"
                ++ (described "n0ding_repository_client_canceled_total"
                      "Repository requests canceled by clients." "counter"
                    ++ (described "n0ding_repository_range_requests_total"
                          "Repository byte-range requests." "counter"
                        ++ (described "n0ding_repository_storage_bytes"
                              "Complete cached body bytes by repository." "gauge"
                            ++ described "n0ding_repository_cache_objects"
                                "Complete cached objects by repository." "gauge"))))))

abbrev label_of : (Text → Text) → Snapshot → Text
label_of quote s = codes "repository=" ++ (quote s.name ++ (codes ",type=" ++ quote s.kind))

unfoldable pub repository_lines : (Text → Text) → Snapshot → Text
unfolding format_int
repository_lines quote s =
    let label = label_of quote s in
    labelled "n0ding_repository_requests_total" label (pos s.requests)
    ++ (labelled "n0ding_repository_cache_hits_total" label (pos s.cache_hits)
        ++ (labelled "n0ding_repository_cache_misses_total" label (pos s.cache_misses)
            ++ (labelled "n0ding_repository_errors_total" label (pos s.errors)
                ++ (labelled "n0ding_repository_client_canceled_total" label (pos s.client_canceled)
                    ++ (labelled "n0ding_repository_range_requests_total" label
                          (pos s.range_requests)
                        ++ (labelled "n0ding_repository_storage_bytes" label s.storage_bytes
                            ++ labelled "n0ding_repository_cache_objects" label
                                s.cache_objects))))))

unfoldable pub all_repository_lines : (Text → Text) → List Handler → Text
unfolding repository_lines
all_repository_lines quote [] = []
all_repository_lines quote (h ∷ hs) =
    repository_lines quote h.snapshot ++ all_repository_lines quote hs

unfoldable pub storage_lines : Option Controller → Text
unfolding bool_metric format_int
storage_lines none = []
storage_lines (some c) =
    let s = Storage.snapshot c in
    described "n0ding_storage_committed_bytes" "Bytes committed to complete cache objects." "gauge"
    ++ (valued "n0ding_storage_committed_bytes" s.committed_bytes
        ++ (described "n0ding_storage_reserved_bytes" "Bytes reserved by in-flight cache writes."
              "gauge"
            ++ (valued "n0ding_storage_reserved_bytes" s.reserved_bytes
                ++ (described "n0ding_storage_max_bytes" "Configured global cache budget." "gauge"
                    ++ (valued "n0ding_storage_max_bytes" s.max_bytes
                        ++ (described "n0ding_storage_pressure"
                              "Whether usage is at or above the high watermark." "gauge"
                            ++ (valued "n0ding_storage_pressure" (bool_metric s.pressure)
                                ++ (described "n0ding_storage_bypass_objects_total"
                                      "Objects proxied without cache admission." "counter"
                                    ++ (valued "n0ding_storage_bypass_objects_total"
                                          s.bypass_objects
                                        ++ (described "n0ding_storage_bypass_bytes_total"
                                              "Known bytes proxied without cache admission."
                                              "counter"
                                            ++ valued "n0ding_storage_bypass_bytes_total"
                                                s.bypass_bytes))))))))))

-- The time in seconds at which the last run finished.
abbrev finished_lines : Option ℕ → Text
finished_lines none = []
finished_lines (some at) =
    described "n0ding_gc_last_finished_timestamp_seconds"
      "Unix timestamp when the last garbage collection run finished." "gauge"
    ++ valued "n0ding_gc_last_finished_timestamp_seconds" (pos (at / 1000000000))

abbrev last_lines : Option Run → Text
last_lines none = []
last_lines (some run) =
    described "n0ding_gc_last_removed_bytes" "Bytes removed by the last garbage collection run."
      "gauge"
    ++ (valued "n0ding_gc_last_removed_bytes" run.result.removed_bytes
        ++ (described "n0ding_gc_last_errors" "Errors recorded by the last garbage collection run."
              "gauge"
            ++ (valued "n0ding_gc_last_errors" run.result.errors
                ++ finished_lines run.finished_at)))

unfoldable pub gc_lines : Maintenance.Snapshot → Text
unfolding bool_metric format_int
gc_lines gc =
    described "n0ding_gc_running" "Whether a garbage collection run is active." "gauge"
    ++ (valued "n0ding_gc_running" (bool_metric (eq_text gc.state (codes "running")))
        ++ last_lines gc.last)

unfoldable pub metrics : View → Request → Response → Response
unfolding repository_header all_repository_lines storage_lines gc_lines
metrics v q w =
    if not (eq_text q.url_path (codes "/metrics"))
    then http_error (pos 404) (codes "404 page not found") w
    else record w {
      header = set (codes "Content-Type") (codes "text/plain; version=0.0.4") w.header;
      body =
          repository_header
          ++ (all_repository_lines v.quote v.handlers
              ++ (storage_lines v.storage ++ gc_lines v.gc));
    }
