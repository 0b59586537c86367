-- ===== src/Core/Intent.antt =====
-- core/intent/index.ts: normalising an intent. `to_lower` stands for `toLowerCase`, whose tables are
-- those of Unicode.
use micro_agent_protocol.Base.{String, Option, none, some, ◌&&◌, if◌then◌else◌, is_space, str_eq}
use Prim.Native.Char.{code}
use micro_agent_protocol.Core.Types.{Intent}

trim_start : String → String
trim_start String.[] = String.[]
trim_start (String.◌∷◌ c s) =
    let rest = trim_start s in if is_space (code c) then rest else String.◌∷◌ c s

trim_end : String → String
trim_end String.[] = String.[]
trim_end (String.◌∷◌ c s) =
    let rest = trim_end s in
    if is_space (code c) && str_eq rest "" then String.[] else String.◌∷◌ c rest

-- `s.trim()`.
unfoldable pub trim : String → String
unfolding trim_start trim_end
trim s = trim_end (trim_start s)

-- `o?.f()`.
abbrev pub map_text : (String → String) → Option String → Option String
map_text f none = none
map_text f (some s) = some (f s)

unfoldable pub normalize : (String → String) → Intent → Intent
normalize to_lower i = record {
  capability = trim (to_lower i.capability);
  input = i.input;
  requester = record {
    type = i.requester.type;
    id = trim i.requester.id;
    tenant_id = map_text trim i.requester.tenant_id;
  };
  constraints = i.constraints;
  metadata = i.metadata;
  risk_class = map_text to_lower i.risk_class;
}
