-- ===== src/Security/Trust.antt =====
-- security/signing.ts: the trust anchors. They are an argument: the list that the environment
-- variable MAP_TRUST_ANCHORS holds, empty where it is missing or is no JSON array.
use micro_agent_protocol.Base.{
  String, none, some, Bool, true, false, List, [], ◌∷◌, any, find?, if◌then◌else◌, str_eq,
  includes_text,
}

pub record TrustAnchor : Type 0 where
  pub trust_domain : String
  -- The kids of its public keys.
  pub public_keys : List String

-- `anchors.length > 0`.
abbrev pub has_anchors : List TrustAnchor → Bool
has_anchors [] = false
has_anchors (a ∷ anchors) = true

unfoldable pub verify_trust_domain : List TrustAnchor → String → Bool
verify_trust_domain anchors domain =
    if has_anchors anchors then any (λ a. str_eq a.trust_domain domain) anchors else true

unfoldable pub is_key_trusted : List TrustAnchor → String → String → Bool
is_key_trusted anchors key_id domain =
    if has_anchors anchors
    then elim (find? (λ a. str_eq a.trust_domain domain) anchors) [
      | none ↦ false
      | some anchor ↦ includes_text anchor.public_keys key_id
    ]
    else true
