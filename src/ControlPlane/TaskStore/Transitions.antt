-- ===== src/ControlPlane/TaskStore/Transitions.antt =====
-- The transition table of control-plane/task-store.ts as a relation, and the guards that enforce it.
use micro_agent_protocol.Base.{inl, inr, ◌↔◌, ◌≢◌, err, ◌≡◌, refl, ◌⊎◌, true, false, ok, arith}
use micro_agent_protocol.Protocol.{
  TaskStatus, accepted, proposed, awaiting_approval, denied, running, completed, failed, revoked,
  status_eq,
}
use micro_agent_protocol.ControlPlane.TaskGuards.{
  terminal_transition, is_terminal, assert_valid_transition,
}

-- One arrow of the diagram for each entry of TASK_TRANSITIONS.
pub data Transition : TaskStatus → TaskStatus → Type 0 where
  propose : Transition accepted proposed
  start_accepted : Transition accepted running
  start_proposed : Transition proposed running
  start_approved : Transition awaiting_approval running
  ask : Transition proposed awaiting_approval
  complete_accepted : Transition accepted completed
  complete_approved : Transition awaiting_approval completed
  complete : Transition running completed
  fail_accepted : Transition accepted failed
  fail_approved : Transition awaiting_approval failed
  fail : Transition running failed
  deny_accepted : Transition accepted denied
  deny_proposed : Transition proposed denied
  deny_asked : Transition awaiting_approval denied
  revoke_accepted : Transition accepted revoked
  revoke_proposed : Transition proposed revoked
  revoke_asked : Transition awaiting_approval revoked
  revoke : Transition running revoked

ruleset arrows = (
  propose, start_accepted, start_proposed, start_approved, ask, complete_accepted,
  complete_approved, complete, fail_accepted, fail_approved, fail, deny_accepted, deny_proposed,
  deny_asked, revoke_accepted, revoke_proposed, revoke_asked, revoke,
)

pub status_eq→eq : (a b : TaskStatus) → status_eq a b ≡ true → a ≡ b
status_eq→eq a b h = ground arith

pub assert-Transition :
    (a b : TaskStatus) → assert_valid_transition a b ≡ ok tt → (a ≡ b) ⊎ Transition a b
unfolding assert_valid_transition
assert-Transition a b h = grind (arith, arrows)

pub Transition-assert : {a b : TaskStatus} → Transition a b → assert_valid_transition a b ≡ ok tt
unfolding assert_valid_transition
Transition-assert propose = refl
Transition-assert _ = refl

-- The guard lets a status stay, or follow an arrow of the table, and nothing else. For a move from a
-- terminal status to another one it throws the error for terminal statuses.
pub assert_valid_transition_exact :
    (a b : TaskStatus)
    → ((assert_valid_transition a b ≡ ok tt) ↔ ((a ≡ b) ⊎ Transition a b))
      × (is_terminal a ≡ true → a ≢ b → assert_valid_transition a b ≡ err terminal_transition)
unfolding assert_valid_transition
assert_valid_transition_exact a b = (
  (assert-Transition a b, λ m. elim m [ inl e ↦ ground arith | inr t ↦ Transition-assert t ]),
  λ t n. ground (arith, status_eq→eq a b),
)

-- No arrow leaves a terminal status.
pub Transition-live : {a b : TaskStatus} → Transition a b → is_terminal a ≡ false
Transition-live propose = refl
Transition-live _ = refl
