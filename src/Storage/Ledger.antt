-- ===== src/Storage/Ledger.antt =====
-- The controller with all the reservations that it has handed out, under any sequence of calls: each
-- call holds the mutex, so an interleaving of goroutines is a list of calls.
use n0ding.Prelude.{
  ℕ, zero, suc, ◌+◌, ◌<◌, ℤ, pos_part, neg_part, InInt64, Option, none, some, List, [], ◌∷◌, ◌++◌,
  arith, ◌≡◌, if◌then◌else◌, get_elem?, set,
}
use n0ding.Storage
use n0ding.Storage.{Controller, Reservation, saturating_add, must_bypass, commit_fits}
use n0ding.Storage.Admit.{InRange}

pub record Ledger : Type 0 where
  pub controller : Controller
  pub reservations : List Reservation

-- A call; `commit` and `release` name a reservation by its place in the list.
pub data Call : Type 0 where
  reserve : ℤ → ℤ → Call
  record_bypass : ℤ → Call
  commit : ℕ → ℤ → ℤ → Call
  release : ℕ → Call
  remove : ℤ → Call

add_reservation : List Reservation → Controller × Option Reservation → Ledger
add_reservation rs (c, none) = record { controller = c; reservations = rs }
add_reservation rs (c, some r) = record { controller = c; reservations = rs ++ r ∷ [] }

-- A call on a nil reservation changes nothing.
pub commit_at : ℕ → ℤ → ℤ → Ledger → Option Reservation → Ledger
commit_at i actual replaced l none = l
commit_at i actual replaced l (some r) =
    let (c, r', _) = Storage.commit actual replaced l.controller r in
    record { controller = c; reservations = set l.reservations i r' }

pub release_at : ℕ → Ledger → Option Reservation → Ledger
release_at i l none = l
release_at i l (some r) =
    let (c, r') = Storage.release l.controller r in
    record { controller = c; reservations = set l.reservations i r' }

unfoldable pub call : Call → Ledger → Ledger
unfolding add_reservation commit_at release_at
call (reserve bytes free) l =
    add_reservation l.reservations (Storage.reserve bytes free l.controller)
call (record_bypass bytes) l = record l { controller = Storage.record_bypass bytes l.controller }
call (commit i actual replaced) l = commit_at i actual replaced l (get_elem? l.reservations i)
call (release i) l = release_at i l (get_elem? l.reservations i)
call (remove bytes) l = record l { controller = Storage.remove bytes l.controller }

unfoldable pub calls : List Call → Ledger → Ledger
calls [] l = l
calls (e ∷ es) l = calls es (call e l)

-- The arguments of a call are int64, and free space is not negative.
abbrev pub IsCall : Call → Type 0
IsCall (reserve bytes free) = InInt64 bytes × InRange free
IsCall (record_bypass bytes) = InInt64 bytes
IsCall (commit i actual replaced) = InInt64 actual × InInt64 replaced
IsCall (release i) = Unit {0}
IsCall (remove bytes) = InInt64 bytes

-- The bytes of a reservation that neither Commit nor Release has closed.
abbrev pub open_bytes : Reservation → ℕ
open_bytes r = if r.done then 0 else pos_part r.bytes

unfoldable pub open_total : List Reservation → ℕ
open_total [] = 0
open_total (r ∷ rs) = open_bytes r + open_total rs

pub open_total-append :
    (rs : List Reservation) (r : Reservation)
    → open_total (rs ++ r ∷ []) ≡ open_total rs + open_bytes r
unfolding open_total
open_total-append [] r = omega arith
open_total-append (x ∷ rs) r = omega (arith, open_total-append rs r)

pub open_total-set :
    (rs : List Reservation) (i : ℕ) (r r' : Reservation)
    → get_elem? rs i ≡ some r
    → open_total (set rs i r') + open_bytes r ≡ open_total rs + open_bytes r'
unfolding open_total
open_total-set [] i r r' h = ground arith
open_total-set (x ∷ rs) zero r r' h = ground arith
open_total-set (x ∷ rs) (suc i) r r' h = omega (arith, open_total-set rs i r r' h)

abbrev pub IsPositive : Reservation → Type 0
IsPositive r = (0 < pos_part r.bytes) × (neg_part r.bytes ≡ 0)
