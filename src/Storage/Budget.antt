-- ===== src/Storage/Budget.antt =====
-- The invariant of the budget, kept by every call.
use native.Mathlib.Nat.{le_trans}
use n0ding.Prelude.{
  int64-sub, ℕ, ◌+◌, ◌-◌, ◌≤◌, ◌<◌, ℤ, pos, negsuc, pos_part, ◌-ℤ◌, int64, max_int64, InInt64,
  Bool-cases, inl, inr, All, All-append, All-set, All-get_elem?, Bool, true, false, some, [], ◌∷◌,
  ◌++◌, arith, ◌≡◌, ◌⊎◌, refl, Option-cases, get_elem?, set,
}
use n0ding.Storage.{
  Controller, Reservation, saturating_add, must_bypass, commit_fits, reserve, commit, release,
  remove, record_bypass,
}
use n0ding.Storage.Admit.{IsWellFormed, Fits, as_pos, saturating_add-min, admits_iff}
use n0ding.Storage.Ledger.{
  Ledger, Call, call, commit_at, release_at, IsCall, open_total, open_total-append, open_total-set,
  IsPositive,
}

-- `n` bytes are reserved, and what is committed and reserved stays within `cap` where there is a
-- budget. The last field is the condition under which the server makes a controller.
pub record IsBacked (cap n : ℕ) (c : Controller) : Type 0 where
  pub well_formed : IsWellFormed c
  pub reserved : c.reserved_bytes ≡ pos n
  pub capped : 0 < pos_part c.max_bytes → pos_part c.committed_bytes + n ≤ cap
  pub cap_covers : pos_part c.max_bytes ≤ cap
  pub guarded : (0 < pos_part c.max_bytes) ⊎ (0 < pos_part c.min_free_bytes)

module _ (cap n : ℕ) (c : Controller) (v : IsBacked cap n c) where
  record_bypass-IsBacked : (bytes : ℤ) → IsBacked cap n (record_bypass bytes c)
  unfolding record_bypass
  record_bypass-IsBacked bytes = ground arith

  reserved_bound : n ≤ max_int64
  reserved_bound = ground (arith, v.reserved, v.well_formed.reserved_range)

  committed_bound : (u : ℕ) → c.committed_bytes ≡ pos u → u ≤ max_int64
  committed_bound u e = ground (arith, v.well_formed.committed_range)

  admitted-IsBacked :
      (b free : ℕ)
      → b ≤ max_int64
      → free ≤ max_int64
      → Fits (pos b) (pos free) c
      → IsBacked cap (n + b) (record c { reserved_bytes = saturating_add c.reserved_bytes (pos b) })
  admitted-IsBacked b free hb hf fits =
      rw (v.reserved, saturating_add-min n b reserved_bound hb) (ground (arith, v.reserved))

  freed-IsBacked :
      (b : ℕ)
      → b ≤ n
      → IsBacked cap (n - b) (record c { reserved_bytes = int64 (c.reserved_bytes -ℤ pos b) })
  unfolding int64 ◌-ℤ◌
  freed-IsBacked b h = ground (arith, v.reserved)

  remove-IsBacked : (bytes : ℤ) → InInt64 bytes → IsBacked cap n (remove bytes c)
  unfolding remove int64 ◌-ℤ◌
  remove-IsBacked bytes h = ground (arith, v.reserved)

  committed-IsBacked :
      (b a p u : ℕ)
      → b ≤ n
      → c.committed_bytes ≡ pos u
      → commit_fits (pos b) (pos u) (pos a) (pos p) ≡ true
      → b ≤ max_int64
      → IsBacked cap (n - b) (record c {
        reserved_bytes = int64 (c.reserved_bytes -ℤ pos b);
        committed_bytes = saturating_add (int64 (c.committed_bytes -ℤ pos p)) (pos a);
      })
  unfolding commit_fits
  committed-IsBacked b a p u h eu fits hb =
      rw
        (
          v.reserved,
          eu,
          int64-sub n b h reserved_bound,
          int64-sub u p (ground arith) (committed_bound u eu),
          saturating_add-min (u - p) a (omega (arith, committed_bound u eu)) (ground arith),
        )
        (ground (arith, v.reserved))

-- The reserved bytes are those of the open reservations.
pub record IsSound (cap : ℕ) (l : Ledger) : Type 0 where
  pub backed : IsBacked cap (open_total l.reservations) l.controller
  pub positive : All IsPositive l.reservations

module _ (cap : ℕ) (l : Ledger) (s : IsSound cap l) where
  reserve-IsSound :
      (bytes free : ℤ)
      → IsCall (Call.reserve bytes free)
      → IsSound cap (call (Call.reserve bytes free) l)
  unfolding call reserve
  reserve-IsSound bytes free h = elim (Bool-cases (must_bypass bytes free l.controller)) [
    | inl refused ↦ rw refused (record {
      backed = record_bypass-IsBacked cap _ l.controller s.backed bytes;
      positive = s.positive;
    })
    | inr admitted ↦ rw admitted (
        admit bytes free h
          ((admits_iff bytes free l.controller s.backed.well_formed h.0 h.1).0 admitted))
  ]
    where
      admit :
          (bytes free : ℤ)
          → IsCall (Call.reserve bytes free)
          → Fits bytes free l.controller
          → IsSound cap (record {
            controller = record l.controller {
              reserved_bytes = saturating_add l.controller.reserved_bytes bytes;
            };
            reservations = l.reservations ++ record { bytes = bytes; done = false } ∷ [];
          })
      admit (pos b) (pos f) h fits = record {
        backed =
            rw (open_total-append)
              (admitted-IsBacked cap _ l.controller s.backed b f (omega arith) (omega arith) fits);
        positive = All-append IsPositive l.reservations _ s.positive ((omega arith), tt);
      }
      admit (negsuc b) free h fits = absurd (omega (arith, fits.positive))
      admit (pos b) (negsuc f) h fits = absurd (omega arith)

  -- A reservation that is open is part of the total.
  open_part :
      (i : ℕ) (b : ℕ) (r : Reservation)
      → get_elem? l.reservations i ≡ some r
      → r.done ≡ false
      → r.bytes ≡ pos b
      → (b ≤ open_total l.reservations)
        × (open_total (set l.reservations i (record r { done = true }))
            ≡ open_total l.reservations - b)
  open_part i b r e o k =
      ground (arith, open_total-set l.reservations i r (record r { done = true }) e)

  -- Whatever a call writes back for a reservation, its size stays.
  closed_positive :
      (i : ℕ) (r r' : Reservation)
      → get_elem? l.reservations i ≡ some r
      → r'.bytes ≡ r.bytes
      → All IsPositive (set l.reservations i r')
  closed_positive i r r' e k =
      All-set IsPositive l.reservations i r' s.positive
        (rw k (All-get_elem? IsPositive l.reservations i r s.positive e))

  size_of :
      (i : ℕ) (r : Reservation)
      → get_elem? l.reservations i ≡ some r
      → r.bytes ≡ pos (pos_part r.bytes)
  size_of i r e = ground (arith, All-get_elem? IsPositive l.reservations i r s.positive e)

  same_total :
      (i : ℕ) (r : Reservation)
      → get_elem? l.reservations i ≡ some r
      → open_total (set l.reservations i r) ≡ open_total l.reservations
  same_total i r e = omega (arith, open_total-set l.reservations i r r e)

  -- A call on a reservation that is closed already.
  unchanged-IsSound :
      (i : ℕ) (r : Reservation)
      → get_elem? l.reservations i ≡ some r
      → IsSound cap (record { controller = l.controller; reservations = set l.reservations i r })
  unchanged-IsSound i r e = record {
    backed = rw (same_total i r e) s.backed;
    positive = closed_positive i r r e refl;
  }

  -- A call that gives an open reservation back.
  freed-IsSound :
      (i : ℕ) (r : Reservation)
      → get_elem? l.reservations i ≡ some r
      → r.done ≡ false
      → IsSound cap (record {
        controller = record l.controller {
          reserved_bytes = int64 (l.controller.reserved_bytes -ℤ r.bytes);
        };
        reservations = set l.reservations i (record r { done = true });
      })
  freed-IsSound i r e o =
      let part = open_part i (pos_part r.bytes) r e o (size_of i r e) in
      record {
        backed =
            rw (part.1, size_of i r e)
              (freed-IsBacked cap _ l.controller s.backed (pos_part r.bytes) part.0);
        positive = closed_positive i r (record r { done = true }) e refl;
      }

  release_at-IsSound :
      (i : ℕ) (b : ℤ) (done : Bool)
      → get_elem? l.reservations i ≡ some (record { bytes = b; done = done })
      → IsSound cap (release_at i l (some (record { bytes = b; done = done })))
  unfolding call release
  release_at-IsSound i b true e = unchanged-IsSound i (record { bytes = b; done = true }) e
  release_at-IsSound i b false e = freed-IsSound i (record { bytes = b; done = false }) e refl

  release-IsSound : (i : ℕ) → IsSound cap (call (Call.release i) l)
  unfolding call
  release-IsSound i = elim (Option-cases (get_elem? l.reservations i)) [
    | inl e ↦ rw e s
    | inr (r, e) ↦ rw e (release_at-IsSound i r.bytes r.done e)
  ]

  -- A commit that fits: the sizes are not negative.
  committed-IsSound :
      (i : ℕ) (b actual replaced : ℤ)
      → get_elem? l.reservations i ≡ some (record { bytes = b; done = false })
      → commit_fits b l.controller.committed_bytes actual replaced ≡ true
      → IsSound cap (record {
        controller = record l.controller {
          reserved_bytes = int64 (l.controller.reserved_bytes -ℤ b);
          committed_bytes =
              saturating_add (int64 (l.controller.committed_bytes -ℤ replaced)) actual;
        };
        reservations = set l.reservations i (record { bytes = b; done = true });
      })
  unfolding commit_fits
  committed-IsSound i (negsuc b) actual replaced e fits =
      absurd (ground (arith, size_of i (record { bytes = negsuc b; done = false }) e))
  committed-IsSound i (pos b) (negsuc a) replaced e fits = absurd (ground arith)
  committed-IsSound i (pos b) (pos a) (negsuc p) e fits = absurd (ground arith)
  committed-IsSound i (pos b) (pos a) (pos p) e fits =
      let part = open_part i b (record { bytes = pos b; done = false }) e refl refl in
      let eu = as_pos l.controller.committed_bytes s.backed.well_formed.committed_range in
      record {
        backed = rw part.1 (
            committed-IsBacked cap _ l.controller s.backed b a p
              (pos_part l.controller.committed_bytes) part.0 eu (rw eu at fits)
              (le_trans part.0 (reserved_bound cap _ l.controller s.backed)));
        positive =
            closed_positive i (record { bytes = pos b; done = false })
              (record { bytes = pos b; done = true }) e refl;
      }

  commit_at-IsSound :
      (i : ℕ) (actual replaced b : ℤ) (done : Bool)
      → get_elem? l.reservations i ≡ some (record { bytes = b; done = done })
      → IsSound cap (commit_at i actual replaced l (some (record { bytes = b; done = done })))
  unfolding call commit
  commit_at-IsSound i actual replaced b true e =
      unchanged-IsSound i (record { bytes = b; done = true }) e
  commit_at-IsSound i actual replaced b false e =
      elim (Bool-cases (commit_fits b l.controller.committed_bytes actual replaced)) [
        | inl fits ↦ rw fits (committed-IsSound i b actual replaced e fits)
        | inr unfit ↦ rw unfit (freed-IsSound i (record { bytes = b; done = false }) e refl)
      ]

  commit-IsSound :
      (i : ℕ) (actual replaced : ℤ) → IsSound cap (call (Call.commit i actual replaced) l)
  unfolding call
  commit-IsSound i actual replaced = elim (Option-cases (get_elem? l.reservations i)) [
    | inl e ↦ rw e s
    | inr (r, e) ↦ rw e (commit_at-IsSound i actual replaced r.bytes r.done e)
  ]

-- Every call keeps the ledger sound.
pub call-IsSound :
    (cap : ℕ) (e : Call) (l : Ledger) → IsCall e → IsSound cap l → IsSound cap (call e l)
call-IsSound cap (Call.reserve bytes free) l h s = reserve-IsSound cap l s bytes free h
call-IsSound cap (Call.record_bypass bytes) l h s =
    unfold call in
    record {
      backed = record_bypass-IsBacked cap _ l.controller s.backed bytes;
      positive = s.positive;
    }
call-IsSound cap (Call.commit i actual replaced) l h s = commit-IsSound cap l s i actual replaced
call-IsSound cap (Call.release i) l h s = release-IsSound cap l s i
call-IsSound cap (Call.remove bytes) l h s =
    unfold call in
    record { backed = remove-IsBacked cap _ l.controller s.backed bytes h; positive = s.positive }
