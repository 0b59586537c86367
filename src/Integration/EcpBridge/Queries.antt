-- ===== src/Integration/EcpBridge/Queries.antt =====
-- The SQL text that integration/ecp-bridge.ts builds for a read of a dataset.
use micro_agent_protocol.Base.{String}
use Prim.Native.String.{◌++◌ as ◌⧺◌}

-- A text with an asterisk, or a slash, in front.
abbrev pub star : String → String
star s = String.◌∷◌ "*" s

abbrev pub slash : String → String
slash s = String.◌∷◌ "/" s
