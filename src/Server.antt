-- ===== src/Server.antt =====
-- internal/httpserver/server.go: the collections that the maintenance coordinator runs, and the
-- operator's endpoint that starts one. The stores are a list, in the order of the configuration.
pub mod Startup
pub mod Repositories
pub mod Pages
pub mod Metrics
pub mod Eviction
pub mod Operator
mod Tests
use n0ding.Prelude.{
  ℕ, suc, ◌+◌, ℤ, pos, ◌+ℤ◌, ◌-ℤ◌, int64, leb_ℤ, ltb_ℤ, Bool, true, false, not, ◌&&◌, ◌||◌, Option,
  none, some, List, [], ◌∷◌, ◌++◌, Text, codes, eq_text, has_prefix, trim_prefix, if◌then◌else◌,
  set, get_elem?,
}
use n0ding.Storage
use n0ding.Storage.{Controller}
use n0ding.Maintenance.{Result}
use n0ding.Http.{Header}
use n0ding.Http
use n0ding.Cache.Naming.{Platform}
use n0ding.Cache.Store.{
  Store, Candidate, Removed, kept, gone, kept_error, gone_error, remove_candidate,
}
use n0ding.Cache.Sweep.{Walk, candidates}
use n0ding.Cache.Collect.{GcResult, gc}

-- What a collection works on, and what it has counted.
pub record Progress : Type 0 where
  pub stores : List Store
  pub storage : Option Controller
  pub result : Result

abbrev pub no_result : Result
no_result = record {
  removed_objects = pos 0;
  removed_bytes = pos 0;
  skipped_objects = pos 0;
  errors = pos 0;
}

-- s.storage.Remove, if there is a controller.
abbrev pub remove_bytes : ℤ → Option Controller → Option Controller
remove_bytes n none = none
remove_bytes n (some c) = some (Storage.remove n c)

abbrev add_gc : GcResult → Progress → Progress
add_gc g p = record p {
  storage = remove_bytes g.bytes p.storage;
  result = record p.result {
    removed_objects = int64 (p.result.removed_objects +ℤ g.objects);
    removed_bytes = int64 (p.result.removed_bytes +ℤ g.bytes);
    skipped_objects = int64 (p.result.skipped_objects +ℤ g.skipped);
  };
}

abbrev pub with_store : ℕ → Store → Progress → Progress
with_store i s p = record p { stores = set p.stores i s }

-- One store's GC: the progress, and whether it ends in an error, behind which nothing is counted.
abbrev after_gc : ℕ → Progress → Store × Option (Walk GcResult) → Progress × Bool
after_gc i p (s, none) = (with_store i s p, true)
after_gc i p (s, some w) =
    if w.error then (with_store i s p, true) else (add_gc w.result (with_store i s p), false)

-- The loop of collect over the stores from the i-th on; `canceled n` is the n-th answer of ctx.Err.
unfoldable pub collect_from :
    Platform → (ℕ → Bool) → ℤ → ℕ → List Store → Progress → Progress × Bool
collect_from platform canceled max_age i [] p = (p, false)
collect_from platform canceled max_age i (s ∷ ss) p =
    let (p', error) = after_gc i p (gc platform max_age s) in
    let rest = collect_from platform canceled max_age (i + 1) ss p' in
    if canceled i then (p, true) else if error then (p', true) else rest

-- The candidates of all stores, with the places of their stores: `none` on an error.
abbrev placed : ℕ → List Candidate → List (ℕ × Candidate)
placed i [] = []
placed i (c ∷ cs) = (i, c) ∷ placed i cs

abbrev append_placed :
    ℕ → Walk (List Candidate) → Option (List (ℕ × Candidate)) → Option (List (ℕ × Candidate))
append_placed i w none = none
append_placed i w (some rest) = if w.error then none else some (placed i w.result ++ rest)

unfoldable pub all_candidates : Platform → ℕ → List Store → Option (List (ℕ × Candidate))
all_candidates platform i [] = some []
all_candidates platform i (s ∷ ss) =
    append_placed i (candidates platform s) (all_candidates platform (i + 1) ss)

-- sort.Slice by LastUsed.
unfoldable pub insert_item : ℕ × Candidate → List (ℕ × Candidate) → List (ℕ × Candidate)
insert_item c [] = c ∷ []
insert_item c (d ∷ ds) =
    if ltb_ℤ d.1.last_used c.1.last_used then d ∷ insert_item c ds else c ∷ d ∷ ds

unfoldable pub sort_items : List (ℕ × Candidate) → List (ℕ × Candidate)
unfolding insert_item
sort_items [] = []
sort_items (c ∷ cs) = insert_item c (sort_items cs)

abbrev pub count_removed : Candidate → Progress → Progress
count_removed c p = record p {
  storage = remove_bytes c.bytes p.storage;
  result = record p.result {
    removed_objects = int64 (p.result.removed_objects +ℤ pos 1);
    removed_bytes = int64 (p.result.removed_bytes +ℤ c.bytes);
  };
}

abbrev pub count_skipped : Progress → Progress
count_skipped p = record p {
  result = record p.result { skipped_objects = int64 (p.result.skipped_objects +ℤ pos 1) };
}

abbrev pub count_outcome : Candidate → Progress → Removed → Progress
count_outcome c p kept = p
count_outcome c p gone = count_removed c p
count_outcome c p kept_error = count_skipped p
count_outcome c p gone_error = count_skipped (count_removed c p)

abbrev pub evict_from : Platform → ℕ × Candidate → Progress → Option Store → Progress
evict_from platform (i, c) p none = p
evict_from platform (i, c) p (some s) =
    let (s', outcome) = remove_candidate platform c s in count_outcome c (with_store i s' p) outcome

-- RemoveCandidate, and what is counted.
unfoldable pub evict : Platform → ℕ × Candidate → Progress → Progress
evict platform item p = evict_from platform item p (get_elem? p.stores item.0)

-- The loop of collectPressure.
unfoldable pub evict_all :
    Platform → (ℕ → Bool) → ℤ → ℕ → List (ℕ × Candidate) → Progress → Progress × Bool
evict_all platform canceled to_remove n [] p = (p, false)
evict_all platform canceled to_remove n (item ∷ items) p =
    let rest = evict_all platform canceled to_remove (n + 1) items (evict platform item p) in
    if canceled n
    then (p, true)
    else if leb_ℤ to_remove p.result.removed_bytes
    then (p, false)
    else rest

abbrev evict_listed :
    Platform → (ℕ → Bool) → ℤ → Progress → Option (List (ℕ × Candidate)) → Progress × Bool
evict_listed platform canceled to_remove p none = (p, true)
evict_listed platform canceled to_remove p (some items) =
    evict_all platform canceled to_remove 0 (sort_items items) p

unfoldable pub bytes_to_remove : Controller → ℤ
bytes_to_remove c =
    let state = Storage.snapshot c in int64 (state.committed_bytes -ℤ state.low_bytes)

unfoldable pub collect_pressure : Platform → (ℕ → Bool) → List Store → Controller → Progress × Bool
collect_pressure platform canceled stores c =
    let p : Progress = record { stores = stores; storage = some c; result = no_result } in
    if leb_ℤ (bytes_to_remove c) (pos 0)
    then (p, false)
    else evict_listed platform canceled (bytes_to_remove c) p (all_candidates platform 0 stores)

abbrev has_pressure : Option Controller → Bool
has_pressure none = false
has_pressure (some c) = (Storage.snapshot c).pressure

abbrev collect_by_age : Platform → (ℕ → Bool) → ℤ → List Store → Option Controller → Progress × Bool
collect_by_age platform canceled max_age stores storage =
    collect_from platform canceled max_age 0 stores
      (record { stores = stores; storage = storage; result = no_result })

unfoldable pub collect :
    Platform → (ℕ → Bool) → ℤ → List Store → Option Controller → Progress × Bool
collect platform canceled max_age stores none = collect_by_age platform canceled max_age stores none
collect platform canceled max_age stores (some c) =
    if has_pressure (some c)
    then collect_pressure platform canceled stores c
    else collect_by_age platform canceled max_age stores (some c)

-- What operatorGC does before it runs a collection.
pub data Access : Type 0 where
  not_found method_not_allowed unauthorized admitted : Access

abbrev pub bearer : Text
bearer = codes "Bearer "

unfoldable pub operator_gc : Text → Text → Text → Header → Access
operator_gc operator_token path method header =
    let authorization = Http.get header (codes "Authorization") in
    if not (eq_text path (codes "/api/v1/operator/gc")) || eq_text operator_token []
    then not_found
    else if not (eq_text method (codes "POST"))
    then method_not_allowed
    else if not (has_prefix authorization bearer)
    then unauthorized
    else if not (eq_text (trim_prefix authorization bearer) operator_token)
    then unauthorized
    else admitted
