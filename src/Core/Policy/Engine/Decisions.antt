-- ===== src/Core/Policy/Engine/Decisions.antt =====
-- The decisions of core/policy/index.ts: the first rule that applies decides.
use micro_agent_protocol.Base.{
  Option, none, some, Bool, true, ◌&&◌, List, [], ◌∷◌, map, ◌≡◌, ◌≢◌, refl, sym, subst, ◌↔◌, inl,
  inr, arith, Bool-cases, or_else, codes, All,
}
use mathlib.Core.List.{Memᴰ}
use micro_agent_protocol.Core.Types.{
  allow, deny, Intent, PolicyDecision, PolicyRule, PolicyDocument,
}
use micro_agent_protocol.Core.Policy.Matcher.{
  IsPlain, matches_capability, compile_capability_matcher,
}
use micro_agent_protocol.Core.Policy.Matcher.Glob.{Globs, IsLine, matches_capability_exact}
use micro_agent_protocol.Core.Policy.Condition.{compile_condition}
use micro_agent_protocol.Core.Policy.Condition.Meaning.{
  ConditionHolds, compile_condition_exact, and-exact,
}
use micro_agent_protocol.Core.Policy.Engine.{
  compile_rule, compile_policy, evaluate_rules, evaluate, default_decision, rule_decision,
}

-- A rule applies to an intent: its glob matches the capability, and its condition holds.
abbrev pub Applies : PolicyRule → Intent → Type 0
Applies r i = Globs (codes r.capability) (codes i.capability) × ConditionHolds r.condition i

-- The first rule of a list that applies, if there is one.
pub data FirstMatch (i : Intent) : List PolicyRule → Option PolicyRule → Type 0 where
  nothing : FirstMatch i [] none
  here : {r : PolicyRule} {rs : List PolicyRule} → Applies r i → FirstMatch i (r ∷ rs) (some r)
  pass :
      {r : PolicyRule} {rs : List PolicyRule} {m : Option PolicyRule}
      → ¬ Applies r i
      → FirstMatch i rs m
      → FirstMatch i (r ∷ rs) m

-- What is decided when this is the first rule that applies.
abbrev pub decided : PolicyDocument → Option PolicyRule → PolicyDecision
decided p none = default_decision (or_else p.default_action deny)
decided p (some r) = rule_decision r.action r.id

abbrev rule_test : PolicyRule → Intent → Bool
rule_test r i =
    matches_capability i.capability (compile_capability_matcher r.capability)
    && compile_condition r.condition i

rule-exact :
    (r : PolicyRule) (i : Intent)
    → IsPlain r.capability
    → IsLine (codes i.capability)
    → (rule_test r i ≡ true) ↔ Applies r i
rule-exact r i plain l =
    and-exact _ _ (matches_capability_exact r.capability i.capability plain l)
      (compile_condition_exact r.condition i)

rules-FirstMatch :
    (p : PolicyDocument) (i : Intent) (rs : List PolicyRule)
    → All (λ r. IsPlain r.capability) rs
    → IsLine (codes i.capability)
    → (m : Option PolicyRule) × FirstMatch i rs m
      × (evaluate_rules i (map compile_rule rs) (or_else p.default_action deny) ≡ decided p m)
unfolding evaluate_rules compile_rule
rules-FirstMatch p i [] plain l = (none, nothing, refl)
rules-FirstMatch p i (r ∷ rs) plain l = elim (Bool-cases (rule_test r i)) [
  | inl t ↦ (some r, here ((rule-exact r i plain.0 l).0 t), rw t)
  | inr f ↦
      let (m, first, e) = rules-FirstMatch p i rs plain.1 l in
      (m, pass (λ a. cc (f, (rule-exact r i plain.0 l).1 a)) first, rw f e)
]

-- If no rule's glob has a character that means something else in a regular expression, every intent
-- whose capability has no line terminator is decided by the first rule of the document that applies
-- to it, or, where none does, by the document's default, which is to deny if it names none.
pub evaluate-FirstMatch :
    (p : PolicyDocument) (i : Intent)
    → All (λ r. IsPlain r.capability) p.rules
    → IsLine (codes i.capability)
    → (m : Option PolicyRule) × FirstMatch i p.rules m × (evaluate i p ≡ decided p m)
unfolding evaluate compile_policy
evaluate-FirstMatch p i plain l = rules-FirstMatch p i p.rules plain l

FirstMatch-mem :
    {i : Intent} (r : PolicyRule) {rs : List PolicyRule} {m : Option PolicyRule}
    → FirstMatch i rs m
    → m ≡ some r
    → Memᴰ r rs × Applies r i
FirstMatch-mem r nothing e = cc
FirstMatch-mem {i} r (here {r = q} a) e =
    let is : q ≡ r = cc in (Memᴰ.head (sym is), subst (λ x. Applies x i) is a)
FirstMatch-mem r (pass n f) e = let (m, a) = FirstMatch-mem r f e in (Memᴰ.tail m, a)

-- A document that does not name allow as its default, and whose globs have no character that means
-- something else in a regular expression, allows an intent whose capability has no line terminator
-- only by one of its rules that applies and says so.
pub allow_needs_rule :
    (p : PolicyDocument) (i : Intent)
    → All (λ r. IsPlain r.capability) p.rules
    → IsLine (codes i.capability)
    → p.default_action ≢ some allow
    → (evaluate i p).action ≡ allow
    → (r : PolicyRule) × Memᴰ r p.rules × Applies r i × (r.action ≡ allow)
unfolding default_decision rule_decision
allow_needs_rule p i plain l closed h = go first.0 first.1 first.2
  where
    first : (m : Option PolicyRule) × FirstMatch i p.rules m × (evaluate i p ≡ decided p m)
    first = evaluate-FirstMatch p i plain l

    go :
        (m : Option PolicyRule)
        → FirstMatch i p.rules m
        → evaluate i p ≡ decided p m
        → (r : PolicyRule) × Memᴰ r p.rules × Applies r i × (r.action ≡ allow)
    go none f e = absurd (closed (ground arith))
    go (some r) f e = let (m, a) = FirstMatch-mem r f refl in (r, m, a, ground arith)
