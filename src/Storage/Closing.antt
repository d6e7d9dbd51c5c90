-- ===== src/Storage/Closing.antt =====
-- Commit and Release: only the first call on a reservation counts.
use n0ding.Prelude.{
  int64-sub, Bool-cases, inl, inr, ℕ, ◌+◌, ◌-◌, ◌≤◌, ℤ, pos, max_int64, true, false, not, arith,
  ◌≡◌, refl, ◌↔◌, if◌then◌else◌, leb,
}
use n0ding.Storage.{Controller, Reservation, commit, commit_fits, release}
use n0ding.Storage.Admit.{saturating_add-min}

-- After a Commit, whatever it returned, and after a Release, a second Commit or Release of the same
-- reservation changes neither the controller nor the reservation, and the Commit returns false.
pub close_once :
    (actual replaced actual' replaced' : ℤ) (c : Controller) (r : Reservation)
    → let (c₁, r₁, _) = commit actual replaced c r in
      let (c₂, r₂) = release c r in
      (commit actual' replaced' c₁ r₁ ≡ (c₁, r₁, false))
      × (release c₁ r₁ ≡ (c₁, r₁))
      × (commit actual' replaced' c₂ r₂ ≡ (c₂, r₂, false))
      × (release c₂ r₂ ≡ (c₂, r₂))
unfolding commit release
close_once actual replaced actual' replaced' c r =
    (ground arith, ground arith, ground arith, ground arith)

-- For an open reservation that the controller has counted: Commit succeeds exactly if the stored
-- size is within the reservation and the replaced size within what is committed; the reservation is
-- given back in both cases, and the committed bytes change only on success, where the stored size
-- takes the place of the replaced one (up to the largest int64).
pub commit_outcome :
    (u n b a p : ℕ) (c : Controller)
    → c.committed_bytes ≡ pos u
    → c.reserved_bytes ≡ pos n
    → u ≤ max_int64
    → n ≤ max_int64
    → b ≤ n
    → a ≤ max_int64
    → p ≤ max_int64
    → let (c', _, done) = commit (pos a) (pos p) c (record { bytes = pos b; done = false }) in
      (c'.reserved_bytes ≡ pos (n - b))
      × ((done ≡ true) ↔ ((a ≤ b) × (p ≤ u)))
      × (c'.committed_bytes
          ≡ pos
              (if not done then u else if leb (u - p + a) max_int64 then u - p + a else max_int64))
unfolding commit commit_fits
commit_outcome u n b a p c eu en hu hn hb ha hp =
    rw (eu, en, int64-sub n b hb hn)
      (elim (Bool-cases (commit_fits (pos b) (pos u) (pos a) (pos p))) [
        | inl fits ↦ rw fits (
          refl,
          (λ _. ground arith, λ _. refl),
          rw (int64-sub u p (ground arith) hu, saturating_add-min (u - p) a (omega arith) ha) refl,
        )
        | inr unfit ↦ rw unfit (refl, (λ q. absurd (cc), λ q. ground arith), refl)
      ])
