-- ===== src/Locker/Tests.antt =====
-- Two calls that lock one key: the second waits for the first.
use n0ding.Prelude.{
  ℕ, zero, suc, ◌<◌, true, false, some, [], ◌∷◌, codes, Text, eq_text, get_elem?, count_if, ◌==◌,
  ◌≡◌, ◌≢◌, refl, arith,
}
use n0ding.Locker.{
  new_locker, enter, set_held, waiting, holding, Caller, System, Step, Reach, here, next_step,
  start,
}
use n0ding.Locker.Mutex.{Client, MutexStep, client, clients, moved, locker_refines_mutexes}
use n0ding.Locker.Exclusion.{holders_of_key_exclude, entries_have_users, waiter_proceeds}

abbrev key : Text
key = codes "left-pad"

abbrev entered : System
entered = record {
  locker = (enter key start.locker).0;
  callers = record { key = key; item = 0; phase = waiting } ∷ [];
}

entered-Reach : Reach start entered
unfolding enter new_locker
entered-Reach = next_step here (Step.enters key)

abbrev first_holder : Caller
first_holder = record { key = key; item = 0; phase = holding }

abbrev held : System
held = record { locker = set_held true 0 entered.locker; callers = first_holder ∷ [] }

held-Reach : Reach start held
unfolding enter new_locker
held-Reach =
    next_step entered-Reach
      (Step.acquires 0 (record { key = key; item = 0; phase = waiting }) refl refl refl)

entry_there : held.locker.items key ≡ some 0
unfolding enter new_locker set_held eq_text
entry_there = refl

abbrev first_place : ℕ
first_place = 0

holders_of_key_exclude_example : first_place ≡ first_place
holders_of_key_exclude_example =
    holders_of_key_exclude held held-Reach first_place first_place first_holder first_holder refl
      refl refl refl refl

entries_have_users_example :
    ((held.locker.heap 0).refs ≡ count_if (λ (c : Caller). c.item == 0) held.callers)
    × (0 < (held.locker.heap 0).refs)
    × (held.callers ≢ [])
entries_have_users_example = entries_have_users held held-Reach key 0 entry_there

abbrev first_waiter : Caller
first_waiter = record { key = key; item = 0; phase = waiting }

none_holds :
    (j : ℕ) (d : Caller)
    → get_elem? entered.callers j ≡ some d
    → d.phase ≡ holding
    → first_waiter.key ≢ d.key
none_holds zero d h p = absurd (ground (arith, h, p))
none_holds (suc j) d h p = absurd (cc)

waiter_proceeds_example : (entered.locker.heap 0).held ≡ false
waiter_proceeds_example = waiter_proceeds entered entered-Reach 0 first_waiter refl refl none_holds

none_holds_client :
    (j : ℕ) (d : Client)
    → get_elem? (clients entered) j ≡ some d
    → d.phase ≡ holding
    → (client first_waiter).key ≢ d.key
none_holds_client zero d h p = absurd (ground (arith, h, p))
none_holds_client (suc j) d h p = absurd (cc)

held_Step : Step entered held
unfolding enter new_locker
held_Step = Step.acquires 0 first_waiter refl refl refl

locker_refines_mutexes_example :
    MutexStep (clients entered) (clients held)
    × ((u : System) × Step entered u
        × (clients u ≡ moved (clients entered) 0 (client first_waiter) holding))
locker_refines_mutexes_example =
    locker_refines_mutexes entered held (moved (clients entered) 0 (client first_waiter) holding)
      entered-Reach held_Step (MutexStep.takes 0 (client first_waiter) refl refl none_holds_client)
