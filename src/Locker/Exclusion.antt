-- ===== src/Locker/Exclusion.antt =====
-- Mutual exclusion for each key, and no item outlives its users.
use n0ding.Prelude.{
  ℕ, ◌<◌, ◌≡◌, ◌≢◌, count_if_witness, refl, ap, true, false, some, [], Text, ◌==◌, ==_iff,
  get_elem?, All-get_elem?, count_if, count_if-pos, count_if_unique, arith, Bool-cases, inl, inr,
}
use n0ding.Locker.{
  new_locker, Phase, waiting, holding, leaving, Caller, System, Step, enters, acquires, unlocks,
  leaves, Reach, here, next_step, start,
}
use n0ding.Locker.Invariant.{
  IsConsistent, IsMapped, uses, holds, is_holding, enters-IsConsistent, phase-IsConsistent,
  leaves-IsConsistent,
}

-- The mutex of a caller in its section is held.
pub holder_held :
    (s : System) (h : IsConsistent s) (i : ℕ) (c : Caller)
    → get_elem? s.callers i ≡ some c
    → c.phase ≡ holding
    → (s.locker.heap c.item).held ≡ true
holder_held s h i c e p =
    ground (arith, h.held c.item, count_if-pos (holds c.item) s.callers i c e (ground (arith)))

Step-IsConsistent : {s t : System} → Step s t → IsConsistent s → IsConsistent t
Step-IsConsistent {s} (enters key) h = enters-IsConsistent s h key
Step-IsConsistent {s} (acquires i c e p free) h =
    phase-IsConsistent s h i c true holding e free (rw p) refl
Step-IsConsistent {s} (unlocks i c e p) h =
    phase-IsConsistent s h i c false leaving e (holder_held s h i c e p) (rw p) refl
Step-IsConsistent {s} (leaves i c e p) h = leaves-IsConsistent s h i c e p

pub Reach-IsConsistent : {s t : System} → Reach s t → IsConsistent s → IsConsistent t
Reach-IsConsistent here h = h
Reach-IsConsistent (next_step r st) h = Step-IsConsistent st (Reach-IsConsistent r h)

pub start-IsConsistent : IsConsistent start
unfolding new_locker
start-IsConsistent = record {
  mapped = tt;
  counted = λ a. refl;
  held = λ a. refl;
  live = λ k a e. absurd (cc);
  owned = λ k j a e f. absurd (cc);
  unused = λ a e. refl;
}

-- Whatever the goroutines do, two calls that hold the lock of one key at one time are the same call.
pub holders_of_key_exclude :
    (s : System)
    → Reach start s
    → (i j : ℕ) (c d : Caller) → get_elem? s.callers i ≡ some c
    → get_elem? s.callers j ≡ some d
    → c.phase ≡ holding
    → d.phase ≡ holding
    → c.key ≡ d.key
    → i ≡ j
holders_of_key_exclude s r i j c d ei ej pc pd same =
    let h = Reach-IsConsistent r start-IsConsistent in
    let mc = All-get_elem? (IsMapped s.locker.items) s.callers i c h.mapped ei in
    let md = All-get_elem? (IsMapped s.locker.items) s.callers j d h.mapped ej in
    let item : d.item ≡ c.item = (ground (arith, ap s.locker.items same)) in
    count_if_unique (holds c.item) s.callers i j c d ei ej (rw pc ((==_iff _ _).1 refl))
      (rw pd ((==_iff _ _).1 item)) (ground (arith, h.held c.item))

-- In every reachable state an entry of the map counts the calls that use its item, and there is at
-- least one: an entry goes with its last user, so without callers the map is empty.
pub entries_have_users :
    (s : System)
    → Reach start s
    → (key : Text) (a : ℕ) → s.locker.items key ≡ some a
    → ((s.locker.heap a).refs ≡ count_if (λ (c : Caller). c.item == a) s.callers)
      × (0 < (s.locker.heap a).refs)
      × (s.callers ≢ [])
entries_have_users s r key a e =
    let h = Reach-IsConsistent r start-IsConsistent in
    (
      h.counted a,
      h.live key a e,
      λ none_left. ground (arith, ap (count_if (uses a)) none_left, h.counted a, h.live key a),
    )

holding_of : (p : Phase) → is_holding p ≡ true → p ≡ holding
holding_of holding h = refl
holding_of waiting h = absurd (cc)
holding_of leaving h = absurd (cc)

-- A call that waits can take its lock as soon as no call that holds the same key is left.
pub waiter_proceeds :
    (s : System)
    → Reach start s
    → (i : ℕ) (c : Caller) → get_elem? s.callers i ≡ some c
    → c.phase ≡ waiting
    → ((j : ℕ) (d : Caller) → get_elem? s.callers j ≡ some d → d.phase ≡ holding → c.key ≢ d.key)
    → (s.locker.heap c.item).held ≡ false
waiter_proceeds s r i c e p none_holds =
    let h = Reach-IsConsistent r start-IsConsistent in
    elim (Bool-cases (s.locker.heap c.item).held) [
      | inr free ↦ free
      | inl taken ↦
          absurd
            (clash h (count_if_witness (holds c.item) s.callers (ground (arith, h.held c.item))))
    ]
  where
    clash :
        IsConsistent s
        → ((j : ℕ) × (d : Caller) × (get_elem? s.callers j ≡ some d) × (holds c.item d ≡ true))
        → ⊥
    clash h (j, d, ej, u) =
        let mc = All-get_elem? (IsMapped s.locker.items) s.callers i c h.mapped e in
        let md = All-get_elem? (IsMapped s.locker.items) s.callers j d h.mapped ej in
        none_holds j d ej (holding_of d.phase (ground arith))
          (h.owned c.key d.key c.item mc (ground arith))
