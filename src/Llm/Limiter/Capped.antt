-- ===== src/Llm/Limiter/Capped.antt =====
-- On core/llm/limiter.py: the calls that run at once.
use galaxz.Prelude.{ℕ, ◌+◌, ◌≤◌, ◌≡◌, String, List, [], ◌∷◌, inl, inr, Bool-cases, arith}
use galaxz.Prelude.Table.{All, All-map, exists}
use galaxz.Llm.Limiter.{
  Slot, has_key, new_slot, slot, change, wait_more, admit, give_up, release, Event, step, steps,
}

-- every permit is free or held by a call that runs
abbrev IsBalanced : Slot → Type 0
IsBalanced s = s.permits + s.in_flight ≡ s.max_concurrent

abbrev Keeps : (Slot → Slot) → Type 0
Keeps f = (s : Slot) → IsBalanced s → IsBalanced (f s)

change-All :
    (key : String) (f : Slot → Slot)
    → Keeps f
    → (slots : List Slot) → All IsBalanced slots
    → All IsBalanced (change key f slots)
unfolding change
change-All key f keeps [] h = tt
change-All key f keeps (s ∷ slots) (here, h) = elim (Bool-cases (has_key key s)) [
  | inl hit ↦ rw hit (keeps s here, change-All key f keeps slots h)
  | inr miss ↦ rw miss (here, change-All key f keeps slots h)
]

slot-All :
    (key : String) (n : ℕ) (slots : List Slot)
    → All IsBalanced slots
    → All IsBalanced (slot key n slots)
unfolding slot new_slot
slot-All key n slots h = elim (Bool-cases (exists (has_key key) slots)) [
  | inl known ↦ rw known h
  | inr new ↦ rw new (omega arith, h)
]

wait_more-Keeps : Keeps wait_more
unfolding wait_more
wait_more-Keeps s h = h

give_up-Keeps : Keeps give_up
unfolding give_up
give_up-Keeps s h = h

admit-Keeps : Keeps admit
unfolding admit
admit-Keeps s h = ground arith

release-Keeps : Keeps release
unfolding release
release-Keeps s h = ground arith

step-All : (e : Event) (slots : List Slot) → All IsBalanced slots → All IsBalanced (step e slots)
unfolding step
step-All (Event.arrived key n) slots h =
    change-All key wait_more wait_more-Keeps (slot key n slots) (slot-All key n slots h)
step-All (Event.admitted key) slots h = change-All key admit admit-Keeps slots h
step-All (Event.gave_up key) slots h = change-All key give_up give_up-Keeps slots h
step-All (Event.ended key) slots h = change-All key release release-Keeps slots h

steps-All :
    (es : List Event) (slots : List Slot) → All IsBalanced slots → All IsBalanced (steps es slots)
unfolding steps
steps-All [] slots h = h
steps-All (e ∷ es) slots h = steps-All es (step e slots) (step-All e slots h)

-- However the calls interleave, no provider has more calls in flight than its slots.
pub steps-IsCapped : (es : List Event) → All (λ s. s.in_flight ≤ s.max_concurrent) (steps es [])
steps-IsCapped es =
    All-map IsBalanced (λ s. s.in_flight ≤ s.max_concurrent) (steps es []) (λ s h. omega arith)
      (steps-All es [] tt)
