-- ===== src/Integration/EcpBridge/Tests.antt =====
-- The bridge on concrete envelopes.
use micro_agent_protocol.Base.{◌≡◌, refl, String, Option, none, some, [], ◌∷◌, is_blank}
use Prim.Native.String.{◌++◌ as ◌⧺◌}
use micro_agent_protocol.Base.Json.{Value, int, pos, number, text, object_of, fields_of, lookup}
use micro_agent_protocol.Protocol.{agent, summary}
use micro_agent_protocol.Core.Intent.{trim}
use micro_agent_protocol.Integration.Envelope.{TaskEnvelope}
use micro_agent_protocol.Integration.EcpBridge.{
  safe_name, without_closings, build_db_read_query, map_intent_input, assign, spread, payment_input,
  parse_intent_payload, starts_with,
}

-- A parser that reads every text as one payment.
abbrev parse : String → Option Value
parse s = some (object_of (("amount", number (int (pos 7))) ∷ []))

abbrev envelope : TaskEnvelope
envelope = record {
  task_id = "t1";
  order_id = none;
  context_id = none;
  requester_identity = record { type = agent; id = "a1"; tenant_id = some "acme" };
  target_agent = "payer";
  intent = "pay";
  constraints = fields_of (
      ("common", object_of (("max_amount", number (int (pos 50))) ∷ []))
      ∷ ("domain", object_of (("vendor_id", text "v1") ∷ []))
      ∷ []);
  risk_class = "low";
  requested_output_mode = summary;
  metadata = none;
  idempotency_token = none;
  extensions = none;
}

-- The amount of the intent's own text goes before the limit of the constraints.
own_amount : lookup "amount" (map_intent_input parse envelope "payment.send") ≡ number (int (pos 7))
unfolding map_intent_input payment_input parse_intent_payload is_blank starts_with assign spread
    lookup trim
own_amount = refl

usual_currency : lookup "currency" (map_intent_input parse envelope "payment.send") ≡ text "USD"
unfolding map_intent_input payment_input parse_intent_payload is_blank starts_with assign spread
    lookup trim
usual_currency = refl

built_query :
    build_db_read_query "or ders;" none (some "all */ of them")
    ≡ "SELECT * FROM or_ders_ /* all  of them */"
unfolding build_db_read_query safe_name without_closings
built_query = refl
