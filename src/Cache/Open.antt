-- ===== src/Cache/Open.antt =====
-- internal/cache/store.go: New and Size.
use n0ding.Prelude.{ℤ, pos, Bool, Option, none, some, [], Text, if◌then◌else◌}
use n0ding.Cache.Files.{Files}
use n0ding.Cache.Naming.{Platform}
use n0ding.Cache.Store.{Store}
use n0ding.Cache.Sweep.{Walk, Usage, reconcile}

abbrev scanned : Store × Walk Usage → Option Store
scanned (s, w) = if w.error then none else some s

-- New on the files below the root, given whether the directory can be made, and the clock.
unfoldable pub new_store : Platform → Bool → ℤ → Text → Files → Option Store
unfolding reconcile
new_store platform made now root files =
    let opened = scanned (
      reconcile platform (record {
        root = root;
        files = files;
        now = now;
        bytes = pos 0;
        objects = pos 0;
        active_temps = [];
      })) in
    if made then opened else none

unfoldable pub size_of : Store → ℤ × ℤ
size_of s = (s.bytes, s.objects)
