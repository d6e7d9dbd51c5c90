-- ===== src/Storage/Trace.antt =====
-- The budget after any sequence of calls on a new controller.
use n0ding.Prelude.{
  ℕ, ◌+◌, ◌≤◌, ◌<◌, pos, pos_part, max_int64, All, List, [], ◌∷◌, arith, ◌≡◌, refl, ◌∙◌, ◌⊎◌,
  Bool-cases, inl, inr, if◌then◌else◌, leb,
}
use n0ding.Storage.{new_controller, reserve, commit, release, remove, record_bypass}
use n0ding.Storage.Ledger.{Ledger, Call, call, calls, IsCall, open_total}
use n0ding.Storage.Budget.{IsSound, call-IsSound}

calls-IsSound :
    (cap : ℕ) (es : List Call) (l : Ledger)
    → All IsCall es
    → IsSound cap l
    → IsSound cap (calls es l)
unfolding calls
calls-IsSound cap [] l h s = s
calls-IsSound cap (e ∷ es) l h s = calls-IsSound cap es (call e l) h.1 (call-IsSound cap e l h.0 s)

-- No call changes the budget.
max_bytes-call : (e : Call) (l : Ledger) → (call e l).controller.max_bytes ≡ l.controller.max_bytes
unfolding call reserve commit release remove record_bypass
max_bytes-call (Call.reserve bytes free) l = ground arith
max_bytes-call (Call.record_bypass bytes) l = refl
max_bytes-call (Call.commit i actual replaced) l = ground arith
max_bytes-call (Call.release i) l = ground arith
max_bytes-call (Call.remove bytes) l = ground arith

max_bytes-calls :
    (es : List Call) (l : Ledger) → (calls es l).controller.max_bytes ≡ l.controller.max_bytes
unfolding calls
max_bytes-calls [] l = refl
max_bytes-calls (e ∷ es) l = max_bytes-calls es (call e l) ∙ max_bytes-call e l

-- The ledger of a new controller.
abbrev pub fresh : ℕ → ℕ → ℕ → ℕ → ℕ → Ledger
fresh max high low min_free committed = record {
  controller = new_controller (pos max) (pos high) (pos low) (pos min_free) (pos committed);
  reservations = [];
}

-- Settings that the server makes a controller for: int64, and one of the two limits is set.
pub record IsSetting (max min_free committed : ℕ) : Type 0 where
  pub max_range : max ≤ max_int64
  pub min_free_range : min_free ≤ max_int64
  pub committed_range : committed ≤ max_int64
  pub limited : (0 < max) ⊎ (0 < min_free)

fresh-IsSound :
    (max high low min_free committed : ℕ)
    → IsSetting max min_free committed
    → IsSound (if leb max committed then committed else max) (fresh max high low min_free committed)
unfolding new_controller open_total
fresh-IsSound max high low min_free committed h = record { backed = ground arith; positive = tt }

-- From a new controller with a limit, after any calls with int64 arguments, for which no number of
-- free bytes is negative: the reserved bytes are exactly the sum of the reservations that neither
-- Commit nor Release has closed, and where there is a byte budget, committed and reserved bytes
-- together never exceed it, or what was committed at the start if that was more.
pub calls_in_budget :
    (max high low min_free committed : ℕ) (es : List Call)
    → IsSetting max min_free committed
    → All IsCall es
    → let l = calls es (fresh max high low min_free committed) in
      (l.controller.reserved_bytes ≡ pos (open_total l.reservations))
      × ((max ≡ 0)
          ⊎ (pos_part l.controller.committed_bytes + pos_part l.controller.reserved_bytes
              ≤ (if leb max committed then committed else max)))
calls_in_budget max high low min_free committed es h hs =
    let l = fresh max high low min_free committed in
    let cap = if leb max committed then committed else max in
    let s = calls-IsSound cap es l hs (fresh-IsSound max high low min_free committed h) in
    (
      s.backed.reserved,
      elim (Bool-cases (leb max 0)) [
        | inl z ↦ inl (ground (arith, z))
        | inr p ↦
            (let kept = max_bytes-calls es l in
              let limited : 0 < max = ground (arith, p) in
              inr (
                rw s.backed.reserved
                  (s.backed.capped (rw kept (unfold new_controller in limited)))))
      ],
    )
