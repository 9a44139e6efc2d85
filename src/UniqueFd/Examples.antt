-- ===== src/UniqueFd/Examples.antt =====
-- Tests of the descriptor's owner, and its theorem at a concrete input.
use vigil_low_latency_tcp_he.Prelude.{◌+◌, ◌≤◌, ◌≡◌, refl, arith, List, [], ◌∷◌}
use vigil_low_latency_tcp_he.Prelude.Int.{pos}
use vigil_low_latency_tcp_he.UniqueFd.Defs.{
  Action, no_objects, act, act_all, destroy, reset, valid, move_assign, release, move_construct,
}
use vigil_low_latency_tcp_he.UniqueFd.Ownership.{
  owned, times, acquired, acquired_all, IsGivenOnce, act_all-owned,
}

-- 7 is moved to a second object, which takes over 8 when the third is assigned to it; the first gets 7
-- again from the system, and all are destroyed.
abbrev session : List Action
session =
    Action.construct (pos 7)
    ∷ Action.construct_from 0
    ∷ Action.construct (pos 8)
    ∷ Action.assign 1 2
    ∷ Action.reset_to 0 (pos 7)
    ∷ Action.reset_to 0 (pos 7)
    ∷ Action.destroy_at 2
    ∷ Action.destroy_at 1
    ∷ Action.destroy_at 0
    ∷ []

session_closes : (act_all session no_objects).closed ≡ pos 7 ∷ pos 8 ∷ pos 7 ∷ []
unfolding act_all act destroy reset valid move_assign release move_construct
session_closes = refl

session_given : IsGivenOnce 7 session no_objects
unfolding act destroy reset valid move_assign release move_construct acquired owned
session_given = omega arith

act_all-owned_example :
    (owned 7 (act_all session no_objects).owners ≤ 1)
    × (owned 7 (act_all session no_objects).owners
          + times 7 (act_all session no_objects).closed
          + times 7 (act_all session no_objects).released
        ≡ acquired_all 7 session no_objects)
act_all-owned_example = act_all-owned 7 session session_given
