-- ===== src/Maintenance/Numbering.antt =====
-- Run ids count the accepted runs.
use n0ding.Prelude.{
  ℕ, zero, suc, ◌+◌, ◌<◌, ◌%◌, Option, none, some, List, [], ◌∷◌, ◌++◌, arith, ◌≡◌, refl, Text,
  length, get_elem?, set, length-set, length-append, get_elem?-lt, Option-cases, inl, inr,
}
use n0ding.Maintenance.{
  Coordinator, Run, Result, Trigger, System, Step, begins, writes, retires, Reach, here, next_step,
  start, new_coordinator, begin, record_outcome, retire, admit, with_outcome,
}

-- The ids from `k` on.
abbrev Ids : ℕ → List Run → Type 0
Ids k [] = Unit
Ids k (r ∷ rs) = (r.id ≡ k % 18446744073709551616) × Ids (suc k) rs

Ids-append :
    (k : ℕ) (rs : List Run) (r : Run)
    → Ids k rs
    → r.id ≡ (k + length rs) % 18446744073709551616
    → Ids k (rs ++ r ∷ [])
Ids-append k [] r h e = (omega arith, tt)
Ids-append k (x ∷ rs) r h e = (h.0, Ids-append (suc k) rs r h.1 (omega arith))

Ids-set :
    (k : ℕ) (rs : List Run) (i : ℕ) (r r' : Run)
    → Ids k rs
    → get_elem? rs i ≡ some r
    → r'.id ≡ r.id
    → Ids k (set rs i r')
Ids-set k [] i r r' h e q = tt
Ids-set k (x ∷ rs) zero r r' h e q = (ground arith, h.1)
Ids-set k (x ∷ rs) (suc i) r r' h e q = (h.0, Ids-set (suc k) rs i r r' h.1 e q)

Ids-get_elem? :
    (k : ℕ) (rs : List Run) (i : ℕ) (r : Run)
    → Ids k rs
    → get_elem? rs i ≡ some r
    → r.id ≡ (k + i) % 18446744073709551616
Ids-get_elem? k [] i r h e = absurd (cc)
Ids-get_elem? k (x ∷ rs) zero r h e = ground arith
Ids-get_elem? k (x ∷ rs) (suc i) r h e = omega (arith, Ids-get_elem? (suc k) rs i r h.1 e)

record IsNumbered (c : Coordinator) : Type 0 where
  counted : c.next_id ≡ length c.runs % 18446744073709551616
  ids : Ids 1 c.runs

id-with_outcome :
    (result : Result) (message : Option Text) (now : ℕ) (r : Run)
    → (with_outcome result message now r).id ≡ r.id
unfolding with_outcome
id-with_outcome result none now r = refl
id-with_outcome result (some m) now r = refl

begin-IsNumbered :
    (s : System) (trigger : Trigger) (now : ℕ)
    → IsNumbered s.coordinator
    → IsNumbered (admit s (begin trigger now s.coordinator)).coordinator
unfolding begin
begin-IsNumbered s trigger now h = elim (Option-cases s.coordinator.current) [
  | inl e ↦ rw e (record {
    counted = omega (arith, h.counted, length-append {0} s.coordinator.runs);
    ids = Ids-append 1 s.coordinator.runs _ h.ids (omega (arith, h.counted));
  })
  | inr (p, e) ↦ rw e (record { counted = h.counted; ids = h.ids })
]

write-IsNumbered :
    (c : Coordinator) (p now : ℕ) (result : Result) (message : Option Text)
    → IsNumbered c
    → IsNumbered (record_outcome p result message now c)
unfolding record_outcome
write-IsNumbered c p now result message h = elim (Option-cases (get_elem? c.runs p)) [
  | inl e ↦ rw e h
  | inr (r, e) ↦ rw e (record {
    counted = rw length-set h.counted;
    ids = Ids-set 1 c.runs p r _ h.ids e (id-with_outcome result message now r);
  })
]

Step-IsNumbered : {s t : System} → Step s t → IsNumbered s.coordinator → IsNumbered t.coordinator
unfolding retire
Step-IsNumbered {s} (begins trigger now) h = begin-IsNumbered s trigger now h
Step-IsNumbered {s} (writes i p now result message e) h =
    write-IsNumbered s.coordinator p now result message h
Step-IsNumbered {s} (retires i p e) h = record { counted = h.counted; ids = h.ids }

Reach-IsNumbered : {s t : System} → Reach s t → IsNumbered s.coordinator → IsNumbered t.coordinator
Reach-IsNumbered here h = h
Reach-IsNumbered (next_step r st) h = Step-IsNumbered st (Reach-IsNumbered r h)

start-IsNumbered : IsNumbered start.coordinator
unfolding new_coordinator
start-IsNumbered = record { counted = refl; ids = tt }

-- In every reachable state in which fewer than 2 ^ 64 calls of Run have been accepted, the accepted
-- runs are numbered in the order in which they began: the run at place i has the id i + 1.
pub run_ids :
    (s : System)
    → Reach start s
    → (i : ℕ) (r : Run) → get_elem? s.coordinator.runs i ≡ some r
    → length s.coordinator.runs < 18446744073709551616
    → r.id ≡ i + 1
run_ids s reached i r er few =
    let ids = (Reach-IsNumbered reached start-IsNumbered).ids in
    omega (arith, Ids-get_elem? 1 _ i r ids er, get_elem?-lt {0} _ i r er)
