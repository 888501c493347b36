-- ===== src/Client/Wait.antt =====
-- The wait for an address at the head of the loop of barrier_client_task in main/barrier/barrier_client.c.
use esp32_deskflow.Prelude.{
  ◌≡◌, arith, inl, inr, Bool, true, not, ◌||◌, List, [], ◌∷◌, ◌++◌, if◌then◌else◌, Option, none,
  some, Bool-cases,
}

-- One round of it: whether the client is running at the test, and whether EVENT_ETH_HAS_IP is set when
-- xEventGroupWaitBits returns.
pub record Waiting : Type 0 where
  pub running : Bool
  pub has_ip : Bool

-- The wait with these rounds before it, and those that are left when the task goes on; none while it
-- waits behind the last of them. Without an event group it does not wait.
unfoldable pub wait_for_address : Bool → List Waiting → Option (List Waiting)
wait_for_address has_group [] = if has_group then none else some []
wait_for_address has_group (w ∷ rounds) =
    let rest = wait_for_address has_group rounds in
    if not has_group
    then some (w ∷ rounds)
    else if not w.running
    then some rounds
    else if w.has_ip
    then some rounds
    else rest

-- The task goes on no later than behind the first round in which the client is stopped or the bit is set.
wait_for_address_ends :
    (waits : List Waiting) (w : Waiting) (rounds : List Waiting)
    → (not w.running || w.has_ip) ≡ true
    → (left : List Waiting) × (wait_for_address true (waits ++ w ∷ rounds) ≡ some left)
unfolding wait_for_address
wait_for_address_ends [] w rounds ready = elim (Bool-cases w.running) [
  | inl on ↦ (rounds, ground arith)
  | inr off ↦ (rounds, ground arith)
]
wait_for_address_ends (v ∷ waits) w rounds ready =
    let (left, rest) = wait_for_address_ends waits w rounds ready in
    elim (Bool-cases (not v.running || v.has_ip)) [
      | inl now ↦ (waits ++ w ∷ rounds, ground arith)
      | inr later ↦ (left, ground arith)
    ]
