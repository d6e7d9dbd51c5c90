-- ===== src/Maintenance/Exclusion.antt =====
-- At most one collection runs, whatever the scheduler does.
use n0ding.Prelude.{
  ℕ, zero, suc, ◌≤◌, Bool, true, false, Option, none, some, [], ◌∷◌, arith, ◌≡◌, ◌↔◌, refl, Text,
  codes, length, get_elem?, get_elem?-lt, get_elem?-append_last, get_elem?-set_self, is_some, ap,
}
use n0ding.Maintenance.{
  Run, Result, Trigger, System, Step, begins, writes, retires, Reach, here, next_step, start,
  new_coordinator, begin, record_outcome, retire, snapshot, admit, with_outcome,
}

-- Whether a run has finished is what the active call's mark says.
abbrev finished : Run → Bool
finished r = is_some r.finished_at

-- Either no call is active, or the only one is the current run.
data IsExclusive (s : System) : Type 0 where
  idle : s.coordinator.current ≡ none → s.active ≡ [] → IsExclusive s
  busy :
      (p : ℕ) (b : Bool) (r : Run)
      → s.coordinator.current ≡ some p
      → s.active ≡ (p, b) ∷ []
      → get_elem? s.coordinator.runs p ≡ some r
      → finished r ≡ b
      → IsExclusive s

-- The place of an item in a list of one.
only_item :
    (q p i : ℕ) (b c : Bool)
    → get_elem? {A = ℕ × Bool} ((q, b) ∷ []) i ≡ some (p, c)
    → (i ≡ 0) × (p ≡ q) × (c ≡ b)
only_item q p zero b c h = ground arith
only_item q p (suc i) b c h = absurd (cc)

with_outcome-finished :
    (result : Result) (message : Option Text) (now : ℕ) (r : Run)
    → finished (with_outcome result message now r) ≡ true
unfolding with_outcome
with_outcome-finished result none now r = refl
with_outcome-finished result (some m) now r = refl

begins-IsExclusive :
    (s : System) (trigger : Trigger) (now : ℕ)
    → IsExclusive s
    → IsExclusive (admit s (begin trigger now s.coordinator))
unfolding begin
begins-IsExclusive s trigger now (idle c a) = rw c (
    busy (length s.coordinator.runs) false _ refl (rw a)
      (get_elem?-append_last s.coordinator.runs _) refl)
begins-IsExclusive s trigger now (busy p b r c a g f) = rw c (busy p b r refl a g f)

writes-IsExclusive :
    (s : System) (p q now : ℕ) (result : Result) (message : Option Text) (r : Run)
    → s.coordinator.current ≡ some q
    → p ≡ q
    → get_elem? s.coordinator.runs q ≡ some r
    → IsExclusive (record {
      coordinator = record_outcome p result message now s.coordinator;
      active = (p, true) ∷ [];
    })
unfolding record_outcome
writes-IsExclusive s p q now result message r c e g =
    rw (e, g)
      (busy q true (with_outcome result message now r) c refl
        (get_elem?-set_self s.coordinator.runs q _ (get_elem?-lt _ q r g))
        (with_outcome-finished result message now r))

Step-IsExclusive : {s t : System} → Step s t → IsExclusive s → IsExclusive t
unfolding retire
Step-IsExclusive {s} (begins trigger now) h = begins-IsExclusive s trigger now h
Step-IsExclusive {s} (writes i p now result message e) (idle c a) =
    absurd (cc (ap (λ l. get_elem? l i) a, e))
Step-IsExclusive {s} (writes i p now result message e) (busy q b r c a g f) =
    let at = only_item q p i b false (rw a at e) in
    rw (a, at.0) (writes-IsExclusive s p q now result message r c at.1 g)
Step-IsExclusive {s} (retires i p e) (idle c a) = absurd (cc (ap (λ l. get_elem? l i) a, e))
Step-IsExclusive {s} (retires i p e) (busy q b r c a g f) =
    let at = only_item q p i b true (rw a at e) in idle refl (rw (a, at.0))

Reach-IsExclusive : {s t : System} → Reach s t → IsExclusive s → IsExclusive t
Reach-IsExclusive here h = h
Reach-IsExclusive (next_step r st) h = Step-IsExclusive st (Reach-IsExclusive r h)

start-IsExclusive : IsExclusive start
unfolding new_coordinator
start-IsExclusive = idle refl refl

-- What Snapshot shows where the invariant holds.
seen :
    (s : System)
    → IsExclusive s
    → (length s.active ≤ 1)
      × (((snapshot s.coordinator).state ≡ codes "running") ↔ (length s.active ≡ 1))
      × (((snapshot s.coordinator).state ≡ codes "idle") ↔ (length s.active ≡ 0))
unfolding snapshot
seen s (idle c a) =
    rw (c, a) (omega arith, (λ e. absurd (cc), λ e. absurd (omega arith)), (λ e. refl, λ e. refl))
seen s (busy p b r c a g f) =
    rw (c, a) (omega arith, (λ e. refl, λ e. refl), (λ e. absurd (cc), λ e. absurd (omega arith)))

-- Whatever the goroutines that call Run do, at most one of the calls that were accepted has not
-- returned, and Snapshot says "running" exactly if there is one and "idle" exactly if there is none.
pub collections_exclude :
    (s : System)
    → Reach start s
    → (length s.active ≤ 1)
      × (((snapshot s.coordinator).state ≡ codes "running") ↔ (length s.active ≡ 1))
      × (((snapshot s.coordinator).state ≡ codes "idle") ↔ (length s.active ≡ 0))
collections_exclude s r = seen s (Reach-IsExclusive r start-IsExclusive)

coalesce :
    (s : System) (trigger : Trigger) (now : ℕ)
    → IsExclusive s
    → length s.active ≡ 1
    → (run : Run) × (begin trigger now s.coordinator ≡ (s.coordinator, some run, none))
      × ((snapshot s.coordinator).current ≡ some run)
unfolding begin snapshot
coalesce s trigger now (idle c a) h = absurd (omega (arith, ap length a))
coalesce s trigger now (busy p b r c a g f) h = (r, rw (c, g), rw (c, g))

-- While an accepted call has not returned, another call of Run changes nothing and returns the run
-- that Snapshot shows as the current one, as not accepted.
pub calls_coalesce :
    (s : System) (trigger : Trigger) (now : ℕ)
    → Reach start s
    → length s.active ≡ 1
    → (run : Run) × (begin trigger now s.coordinator ≡ (s.coordinator, some run, none))
      × ((snapshot s.coordinator).current ≡ some run)
calls_coalesce s trigger now r h = coalesce s trigger now (Reach-IsExclusive r start-IsExclusive) h

torn :
    (s : System) (p : ℕ)
    → IsExclusive s
    → s.active ≡ (p, true) ∷ []
    → (run : Run) × ((snapshot s.coordinator).state ≡ codes "running")
      × ((snapshot s.coordinator).current ≡ some run)
      × (finished run ≡ true)
unfolding snapshot
torn s p (idle c a) h = absurd (cc)
torn s p (busy q b r c a g f) h = (r, rw c, rw (c, g), ground arith)

-- Between the writes of the outcome, which are made outside the mutex, and the second critical
-- section, Snapshot shows a current run that is said to be running and has its finishing time.
pub running_and_finished :
    (s : System) (p : ℕ)
    → Reach start s
    → s.active ≡ (p, true) ∷ []
    → (run : Run) × ((snapshot s.coordinator).state ≡ codes "running")
      × ((snapshot s.coordinator).current ≡ some run)
      × (is_some run.finished_at ≡ true)
running_and_finished s p r h = torn s p (Reach-IsExclusive r start-IsExclusive) h
