-- ===== src/Server/Startup.antt =====
-- internal/httpserver/server.go: what New computes before it serves, and what RunMaintenance starts.
use n0ding.Prelude.{
  ℤ, pos, ◌+ℤ◌, ◌-ℤ◌, ltb_ℤ, int64, max_int64, Bool, false, not, ◌||◌, Option, none, some, List, [],
  ◌∷◌, Text, eq_text, if◌then◌else◌, length, ltb, trim_space,
}
use n0ding.Storage
use n0ding.Storage.{Controller}
use n0ding.Maintenance.{Trigger}
use n0ding.Cache.Store.{Store}

-- A token from a file: `none` unless it has between 32 and 4096 bytes.
unfoldable pub checked_token : Text → Option Text
checked_token content =
    let token = trim_space content in
    if ltb (length token) 32 || ltb 4096 (length token) then none else some token

abbrev token_of : Option Text → Option Text
token_of none = none
token_of (some content) = checked_token content

-- The operator token for the name of its file, given what os.ReadFile finds.
unfoldable pub operator_token : (Text → Option Text) → Text → Option Text
unfolding checked_token
operator_token read_file path =
    let token = token_of (read_file path) in if eq_text path [] then some [] else token

unfoldable pub add_usage : ℤ → ℤ → ℤ
add_usage committed bytes =
    if ltb_ℤ (int64 (pos max_int64 -ℤ committed)) bytes
    then pos max_int64
    else int64 (committed +ℤ bytes)

unfoldable pub cache_usage : ℤ → List Store → ℤ
unfolding add_usage
cache_usage committed [] = committed
cache_usage committed (s ∷ ss) = cache_usage (add_usage committed s.bytes) ss

-- The sizes of the private indexes; `none` is an error of PrivateSize.
unfoldable pub private_usage : ℤ → List (Option ℤ) → Option ℤ
unfolding add_usage
private_usage committed [] = some committed
private_usage committed (none ∷ sizes) = none
private_usage committed (some size ∷ sizes) = private_usage (add_usage committed size) sizes

-- The bytes that the new controller takes for committed.
unfoldable pub committed_at_start : List Store → List (Option ℤ) → Option ℤ
unfolding cache_usage private_usage
committed_at_start stores sizes = private_usage (cache_usage (pos 0) stores) sizes

abbrev controller_for : ℤ → ℤ → ℤ → ℤ → Option ℤ → Option (Option Controller)
controller_for max high low min_free none = none
controller_for max high low min_free (some committed) =
    if ltb_ℤ (pos 0) max || ltb_ℤ (pos 0) min_free
    then some (some (Storage.new_controller max high low min_free committed))
    else some none

-- The controller, if the configuration sets a budget or a reserve; the watermarks in basis points.
unfoldable pub start_controller :
    ℤ → ℤ → ℤ → ℤ → List Store → List (Option ℤ) → Option (Option Controller)
unfolding committed_at_start
start_controller max high low min_free stores sizes =
    controller_for max high low min_free (committed_at_start stores sizes)

-- The two tickers of RunMaintenance.
pub data Tick : Type 0 where
  pressure_tick schedule_tick : Tick

abbrev under_pressure : Option Controller → Bool
under_pressure none = false
under_pressure (some c) = (Storage.snapshot c).pressure

-- The collection that a tick starts, if any.
unfoldable pub triggered : Tick → Option Controller → Option Trigger
triggered pressure_tick storage =
    if not (under_pressure storage) then none else some Trigger.pressure
triggered schedule_tick storage = some Trigger.schedule
