-- ===== src/Security/Nonces/Tests.antt =====
-- The cache of nonces on a few calls.
use micro_agent_protocol.Base.{◌≡◌, refl, arith, ◌+◌, true, [], ◌∷◌, ltb}
use micro_agent_protocol.Security.Nonces.{prune, verify_nonce}
use micro_agent_protocol.Base.Dict.{get, set}
use micro_agent_protocol.Security.Nonces.Replay.{verify_nonces, replay_exact}

first_use : (verify_nonce 10 5 "n" []).1 ≡ true
unfolding verify_nonce prune get set
first_use = refl

replay_exact_example :
    (verify_nonce 10 16 "n"
      (verify_nonces 10 ((9, "m") ∷ (15, "n") ∷ []) (verify_nonce 10 5 "n" []).0)).1
    ≡ ltb (5 + 10) 16
replay_exact_example =
    replay_exact 10 5 16 "n" ((9, "m") ∷ (15, "n") ∷ []) [] first_use
      (omega arith, (omega arith, tt))
