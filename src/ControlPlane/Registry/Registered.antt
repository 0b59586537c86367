-- ===== src/ControlPlane/Registry/Registered.antt =====
-- What control-plane/registry.ts guarantees of the agents that are looked up.
use micro_agent_protocol.Base.{
  ◌≡◌, refl, sym, subst, ◌⊎◌, ◌↔◌, inl, inr, String, some, true, false, not, ◌&&◌, List, [], ◌∷◌,
  any, filter-mem, mem-filter, str_eq, str_eq_iff, includes_text, truthy, Result, ok, err,
  Result-cases, Bool-cases, arith,
}
use mathlib.Core.List.{Memᴰ}
use micro_agent_protocol.Base.Dict.{
  get as map_get, set as map_set, get-set, set-Unique, Unique, mem_values, Holds-get, get-Holds,
  Holds-mem,
}
use micro_agent_protocol.ControlPlane.Agents.{AgentDescriptor}
use micro_agent_protocol.Security.Trust.{TrustAnchor, has_anchors, verify_trust_domain}
use micro_agent_protocol.ControlPlane.Registry.{
  Registry, RegistryError, DescriptorChecks, signed_descriptor, validated_descriptor, register, get,
  find_by_capability, list, verify_agent_descriptor_signature,
}

-- A domain is trusted: no anchor is configured, none is named, or an anchor names it.
abbrev pub IsTrusted : List TrustAnchor → String → Type 0
IsTrusted anchors domain =
    (anchors ≡ [])
    ⊎ (domain ≡ "")
    ⊎ ((a : TrustAnchor) × Memᴰ a anchors × (a.trust_domain ≡ domain))

any-Mem :
    (domain : String) (anchors : List TrustAnchor)
    → any (λ a. str_eq a.trust_domain domain) anchors ≡ true
    → (a : TrustAnchor) × Memᴰ a anchors × (a.trust_domain ≡ domain)
any-Mem domain [] h = cc
any-Mem domain (a ∷ anchors) h = elim (Bool-cases (str_eq a.trust_domain domain)) [
  | inl same ↦ (a, Memᴰ.head refl, (str_eq_iff a.trust_domain domain).0 same)
  | inr other ↦
      let (b, there, same) = any-Mem domain anchors (ground arith) in (b, Memᴰ.tail there, same)
]

verify_trust_domain-IsTrusted :
    (anchors : List TrustAnchor) (domain : String)
    → verify_trust_domain anchors domain ≡ true
    → IsTrusted anchors domain
unfolding verify_trust_domain
verify_trust_domain-IsTrusted [] domain h = inl refl
verify_trust_domain-IsTrusted (a ∷ anchors) domain h = inr (inr (any-Mem domain (a ∷ anchors) h))

-- What the registry checked of a descriptor that it holds under an id.
pub record Admitted (anchors : List TrustAnchor) (c : DescriptorChecks) (agent_id : String)
    (d : AgentDescriptor) : Type 0 where
  pub filed : d.agent_id ≡ agent_id
  pub valid :
      (sent : AgentDescriptor) × (c.is_valid sent ≡ true) × (d ≡ validated_descriptor c sent)
  pub signed : verify_agent_descriptor_signature c d ≡ true
  pub trusted : IsTrusted anchors d.domain

-- Registrations, one after the other; one that throws changes nothing.
after : Registry → Result RegistryError Registry → Registry
after agents (ok agents') = agents'
after agents (err e) = agents

unfoldable pub register_all :
    List TrustAnchor → DescriptorChecks → Registry → List AgentDescriptor → Registry
unfolding after
register_all anchors c agents [] = agents
register_all anchors c agents (d ∷ ds) =
    register_all anchors c (after agents (register anchors c agents d)) ds

none_held : (k : String) (d : AgentDescriptor) → map_get k [] ≡ some d → ⊥
unfolding map_get
none_held k d h = cc

no_anchors : (anchors : List TrustAnchor) → has_anchors anchors ≡ false → anchors ≡ []
no_anchors [] h = refl
no_anchors (a ∷ anchors) h = cc

gate-IsTrusted :
    (anchors : List TrustAnchor) (domain : String)
    → ((has_anchors anchors && truthy domain) && not (verify_trust_domain anchors domain)) ≡ false
    → IsTrusted anchors domain
gate-IsTrusted anchors domain h = elim (Bool-cases (verify_trust_domain anchors domain)) [
  | inl t ↦ verify_trust_domain-IsTrusted anchors domain t
  | inr f ↦ elim (Bool-cases (has_anchors anchors)) [
    | inl configured ↦ inr (inl (ground (arith, str_eq_iff domain "")))
    | inr bare ↦ inl (no_anchors anchors bare)
  ]
]

-- What is stored of a descriptor: signed, and as validation leaves it.
abbrev kept_descriptor : DescriptorChecks → AgentDescriptor → AgentDescriptor
kept_descriptor c d = validated_descriptor c (signed_descriptor c d)

-- Neither changes the id or the domain.
signed-same :
    (c : DescriptorChecks) (d : AgentDescriptor)
    → ((kept_descriptor c d).agent_id ≡ d.agent_id) × ((kept_descriptor c d).domain ≡ d.domain)
unfolding signed_descriptor validated_descriptor
signed-same c d = (ground arith, ground arith)

module _ (anchors : List TrustAnchor) (c : DescriptorChecks) where
  pub record IsRegistry (agents : Registry) : Type 0 where
    pub distinct : Unique agents
    pub admitted :
        (agent_id : String) (d : AgentDescriptor)
        → map_get agent_id agents ≡ some d
        → Admitted anchors c agent_id d

  -- A registration that goes through stores a descriptor that passed the checks.
  register-stores :
      (agents agents' : Registry) (d : AgentDescriptor)
      → register anchors c agents d ≡ ok agents'
      → Admitted anchors c (kept_descriptor c d).agent_id (kept_descriptor c d)
        × (agents' ≡ map_set (kept_descriptor c d).agent_id (kept_descriptor c d) agents)
  unfolding register
  register-stores agents agents' d h = (
    record {
      filed = refl;
      valid = (signed_descriptor c d, ground arith, refl);
      signed = ground arith;
      trusted =
          subst (IsTrusted anchors) (sym (signed-same c d).1)
            (gate-IsTrusted anchors d.domain (ground arith));
    },
    ground arith,
  )

  set-IsRegistry :
      (agents : Registry) (d : AgentDescriptor)
      → IsRegistry agents
      → Admitted anchors c d.agent_id d
      → IsRegistry (map_set d.agent_id d agents)
  set-IsRegistry agents d v new = record {
    distinct = set-Unique d.agent_id d agents v.distinct;
    admitted = λ agent_id e found. elim (Bool-cases (str_eq d.agent_id agent_id)) [
      | inl same ↦
          subst (Admitted anchors c agent_id) (ground (arith, get-set d.agent_id agent_id d agents))
            (subst (λ k. Admitted anchors c k d) ((str_eq_iff d.agent_id agent_id).0 same) new)
      | inr other ↦ v.admitted agent_id e (ground (arith, get-set d.agent_id agent_id d agents))
    ];
  }

  register_all-IsRegistry :
      (agents : Registry) (ds : List AgentDescriptor)
      → IsRegistry agents
      → IsRegistry (register_all anchors c agents ds)
  unfolding register_all after
  register_all-IsRegistry agents [] v = v
  register_all-IsRegistry agents (d ∷ ds) v = elim (Result-cases (register anchors c agents d)) [
    | inl (agents', e) ↦
        let (passed, is) = register-stores agents agents' d e in
        rw (e, after)
          (register_all-IsRegistry agents' ds
            (subst IsRegistry (sym is) (set-IsRegistry agents (kept_descriptor c d) v passed)))
    | inr (x, e) ↦ rw (e, after) (register_all-IsRegistry agents ds v)
  ]

  -- Of a registry that is empty at first, whatever descriptors are registered: an id is answered by
  -- a descriptor with this id that validation left of a well formed one, has a valid signature and a trusted domain; and
  -- the search by capability finds just the descriptors that are held under their ids and name the
  -- capability.
  pub registered_exact :
      (ds : List AgentDescriptor)
      → ((agent_id : String) (d : AgentDescriptor)
          → get (register_all anchors c [] ds) agent_id ≡ some d
          → Admitted anchors c agent_id d)
        × ((capability : String) (d : AgentDescriptor)
            → Memᴰ d (find_by_capability (register_all anchors c [] ds) capability) ↔ (
                (get (register_all anchors c [] ds) d.agent_id ≡ some d)
                × (includes_text d.capabilities capability ≡ true)))
  unfolding get find_by_capability list
  registered_exact ds =
      let agents = register_all anchors c [] ds in
      let v =
        register_all-IsRegistry [] ds
          (record { distinct = tt; admitted = λ agent_id d h. absurd (none_held agent_id d h) }) in
      (
        v.admitted,
        λ capability d. (
          λ m.
              let (there, named) = filter-mem (λ e. includes_text e.capabilities capability) _ m in
              let (k, held) = mem_values agents there in
              let found = Holds-get v.distinct held in
              (
                subst (λ j. map_get j agents ≡ some d) (sym (v.admitted k d found).filed) found,
                named,
              ),
          λ (found, named).
              mem-filter (λ e. includes_text e.capabilities capability) _
                (Holds-mem (get-Holds d.agent_id d agents found)) named,
        ),
      )
