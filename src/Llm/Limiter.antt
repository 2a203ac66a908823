-- ===== src/Llm/Limiter.antt =====
-- core/llm/limiter.py: the slots of each provider. Threads are interleavings of the steps of a call: it
-- arrives, is admitted or gives up, and ends. A semaphore is its number of permits.
pub mod Capped
use galaxz.Prelude.{
  ℕ, zero, suc, ◌+◌, ◌-◌, String, Bool, true, false, ◌&&◌, List, [], ◌∷◌, ltb, if◌then◌else◌,
}
use galaxz.Prelude.Text.{str_eq}
use galaxz.Prelude.Table.{exists}

-- `_Slot`, with the calls that have been submitted and have not ended
pub record Slot : Type 0 where
  pub key : String
  pub max_concurrent : ℕ
  pub permits : ℕ
  pub waiting : ℕ
  pub in_flight : ℕ

abbrev has_key : String → Slot → Bool
has_key k s = str_eq s.key k

unfoldable pub new_slot : String → ℕ → Slot
new_slot key max_concurrent = record {
  key = key;
  max_concurrent = max_concurrent;
  permits = max_concurrent;
  waiting = 0;
  in_flight = 0;
}

-- `_slot`: the first call for a key decides how many may run
unfoldable pub slot : String → ℕ → List Slot → List Slot
unfolding new_slot
slot key max_concurrent slots =
    if exists (has_key key) slots then slots else new_slot key max_concurrent ∷ slots

unfoldable pub change : String → (Slot → Slot) → List Slot → List Slot
change key f [] = []
change key f (s ∷ slots) = (if has_key key s then f s else s) ∷ change key f slots

-- `slot.waiting += 1`
unfoldable pub wait_more : Slot → Slot
wait_more s = record s { waiting = s.waiting + 1 }

-- `acquire` returns, and the call is submitted
unfoldable pub admit : Slot → Slot
admit s =
    if ltb 0 s.waiting && ltb 0 s.permits
    then record s { permits = s.permits - 1; waiting = s.waiting - 1; in_flight = s.in_flight + 1 }
    else s

-- the wait times out, or the executor does not take the call and the permit is given back
unfoldable pub give_up : Slot → Slot
give_up s = record s { waiting = s.waiting - 1 }

-- `slot.semaphore.release()` when a call has ended
unfoldable pub release : Slot → Slot
release s =
    if ltb 0 s.in_flight
    then record s { permits = s.permits + 1; in_flight = s.in_flight - 1 }
    else s

pub data Event : Type 0 where
  arrived : (key : String) (max_concurrent : ℕ) → Event
  admitted : (key : String) → Event
  gave_up : (key : String) → Event
  ended : (key : String) → Event

unfoldable pub step : Event → List Slot → List Slot
step (Event.arrived key max_concurrent) slots = change key wait_more (slot key max_concurrent slots)
step (Event.admitted key) slots = change key admit slots
step (Event.gave_up key) slots = change key give_up slots
step (Event.ended key) slots = change key release slots

unfoldable pub steps : List Event → List Slot → List Slot
steps [] slots = slots
steps (e ∷ es) slots = steps es (step e slots)
