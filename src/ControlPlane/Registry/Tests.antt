-- ===== src/ControlPlane/Registry/Tests.antt =====
-- The registry on concrete agents.
use micro_agent_protocol.Base.{
  ◌≡◌, refl, ◌↔◌, String, Option, none, some, true, List, [], ◌∷◌, err, str_eq, includes_text,
}
use mathlib.Core.List.{Memᴰ}
use micro_agent_protocol.Base.Dict.{get as map_get, set as map_set}
use micro_agent_protocol.Base.Json.{end}
use micro_agent_protocol.Protocol.{summary}
use micro_agent_protocol.ControlPlane.Agents.{AgentDescriptor}
use micro_agent_protocol.Security.Trust.{TrustAnchor, verify_trust_domain}
use micro_agent_protocol.ControlPlane.Registry.{
  DescriptorChecks, untrusted_domain, invalid_signature, register, signed_descriptor,
  validated_descriptor, get, find_by_capability, verify_agent_descriptor_signature,
}
use micro_agent_protocol.ControlPlane.Registry.Registered.{Admitted, register_all, registered_exact}

-- A signature that names the agent and the key id that stands beside it, if there is one.
abbrev checks : DescriptorChecks
checks = record {
  sign = λ d. record { signature = seal d; key_id = "k1"; alg = "HS256" };
  verify = λ s d. str_eq s (seal d);
  is_valid = λ d. true;
  kept_capabilities = λ o. o;
  kept_rest = λ fs. fs;
}
  where
    seal : AgentDescriptor → String
    seal d = elim d.descriptor_signature [ none ↦ d.agent_id | some s ↦ s ]

abbrev anchors : List TrustAnchor
anchors = record { trust_domain = "payments"; public_keys = "k1" ∷ [] } ∷ []

abbrev agent_in : String → Option String → AgentDescriptor
agent_in domain signature = record {
  agent_id = "payer";
  domain = domain;
  capabilities = "payment.send" ∷ [];
  visibility_modes = summary ∷ [];
  capability_descriptors = none;
  registry_status = none;
  descriptor_signature = signature;
  descriptor_key_id = none;
  descriptor_signature_alg = none;
  extensions = none;
  rest = end;
}

stranger_refused :
    register anchors checks [] (agent_in "elsewhere" none)
    ≡ err (untrusted_domain "elsewhere" "payer")
unfolding register verify_trust_domain
stranger_refused = refl

-- A signature without its key id is made again, over the old one, and does not verify.
half_signed_refused :
    register anchors checks [] (agent_in "payments" (some "old")) ≡ err (invalid_signature "payer")
unfolding register verify_trust_domain signed_descriptor validated_descriptor
    verify_agent_descriptor_signature
half_signed_refused = refl

abbrev registered : List AgentDescriptor
registered = agent_in "payments" none ∷ agent_in "elsewhere" none ∷ []

found :
    get (register_all anchors checks [] registered) "payer"
    ≡ some (signed_descriptor checks (agent_in "payments" none))
unfolding get register_all register verify_trust_domain signed_descriptor validated_descriptor
    verify_agent_descriptor_signature map_get map_set
found = refl

registered_exact_example :
    ((agent_id : String) (d : AgentDescriptor)
      → get (register_all anchors checks [] registered) agent_id ≡ some d
      → Admitted anchors checks agent_id d)
    × ((capability : String) (d : AgentDescriptor)
        → Memᴰ d (find_by_capability (register_all anchors checks [] registered) capability) ↔ (
            (get (register_all anchors checks [] registered) d.agent_id ≡ some d)
            × (includes_text d.capabilities capability ≡ true)))
registered_exact_example = registered_exact anchors checks registered
