-- ===== src/Server/Audit.antt =====
-- server/services/audit-manager.ts: the audit log, a hash chain with signed checkpoints. SHA-256 and
-- the compact signatures are parameters, the time is an argument, and writing the file is left out.
mod Chain
mod Checkpoints
mod Steps
pub mod Recorded
pub mod Tampering
mod Tests
use Prim.Native.String.{◌++◌ as ◌⧺◌}
use micro_agent_protocol.Base.{
  ℕ, zero, suc, ◌+◌, ◌-◌, ◌%◌, String, Option, none, some, Bool, true, false, not, ◌&&◌, ◌||◌, List,
  [], ◌∷◌, ◌++◌, length, drop, find?, ltb, ◌==◌, if◌then◌else◌, or_else, str_eq,
}
use micro_agent_protocol.Base.Decimal.{decimal}

-- What a caller records.
pub record Recording : Type 0 where
  pub timestamp : String
  pub request_id : String
  pub code : String
  pub message : String
  pub method : String
  pub route : String
  pub tenant_id : Option String
  pub target_agent : Option String
  pub subject : Option String

pub record AuditEvent : Type 0 where
  pub event : Recording
  pub chain_index : ℕ
  pub prev_event_hash : String
  pub event_hash : String

-- What a checkpoint's signature covers.
pub record CheckpointPayload : Type 0 where
  pub checkpoint_id : String
  pub created_at : String
  pub last_chain_index : ℕ
  pub last_event_hash : String

pub record AuditCheckpoint : Type 0 where
  pub payload : CheckpointPayload
  pub key_id : String
  pub signature : String

-- The code of security/signing.ts and node:crypto that the log calls: the digest in hexadecimal,
-- `signAuditCheckpoint`, `verifyAuditCheckpointSignature` and `getSignatureKeyId`.
pub record Crypto : Type 0 where
  pub digest : String → String
  pub sign : CheckpointPayload → String
  pub verify : CheckpointPayload → String → Bool
  pub signature_key_id : String → Option String

pub record AuditManager : Type 0 where
  pub audit_events : List AuditEvent
  pub audit_checkpoints : List AuditCheckpoint
  pub audit_max_events : ℕ
  pub audit_checkpoint_interval : ℕ

-- The constructor, without hydrated lists.
unfoldable pub new : (audit_max_events audit_checkpoint_interval : ℕ) → AuditManager
new max_events interval = record {
  audit_events = [];
  audit_checkpoints = [];
  audit_max_events = max_events;
  audit_checkpoint_interval = interval;
}

-- `fields.join("|")`.
pub join : List String → String
join [] = ""
join (s ∷ []) = s
join (s ∷ t ∷ ss) = s ⧺ ("|" ⧺ join (t ∷ ss))

-- The text that is hashed. The subject is not in it.
unfoldable pub canonical : Recording → ℕ → String → String
unfolding join decimal
canonical r index prev = join (
    r.timestamp
    ∷ r.request_id
    ∷ r.code
    ∷ r.message
    ∷ r.method
    ∷ r.route
    ∷ or_else r.tenant_id ""
    ∷ or_else r.target_agent ""
    ∷ decimal index
    ∷ prev
    ∷ [])

unfoldable pub hash_audit_event_base : Crypto → Recording → ℕ → String → String
hash_audit_event_base c r index prev = c.digest (canonical r index prev)

-- `events[events.length - 1]`.
abbrev pub last_event : List AuditEvent → Option AuditEvent
last_event [] = none
last_event (e ∷ []) = some e
last_event (e ∷ f ∷ es) = last_event (f ∷ es)

-- `if (items.length > max) items.splice(0, items.length - max)`.
unfoldable pub trim {ℓ} : {A : Type ℓ} → ℕ → List A → List A
trim max_items items =
    if ltb max_items (length items) then drop (length items - max_items) items else items

abbrev pub next_index : Option AuditEvent → ℕ
next_index none = 1
next_index (some e) = e.chain_index + 1

abbrev pub next_prev : Option AuditEvent → String
next_prev none = "GENESIS"
next_prev (some e) = e.event_hash

unfoldable pub chained_event : Crypto → Recording → ℕ → String → AuditEvent
chained_event c r index prev = record {
  event = r;
  chain_index = index;
  prev_event_hash = prev;
  event_hash = hash_audit_event_base c r index prev;
}

-- `last % interval !== 0`: a number modulo 0 is NaN, which is not 0.
abbrev pub is_between : ℕ → ℕ → Bool
is_between interval index = interval == 0 || not (index % interval == 0)

unfoldable pub build_checkpoint : Crypto → (now : String) → AuditEvent → AuditCheckpoint
unfolding decimal
build_checkpoint c now last =
    let payload : CheckpointPayload = record {
      checkpoint_id = "audit-checkpoint:" ⧺ decimal last.chain_index;
      created_at = now;
      last_chain_index = last.chain_index;
      last_event_hash = last.event_hash;
    } in
    record {
      payload = payload;
      key_id = or_else (c.signature_key_id (c.sign payload)) "unknown";
      signature = c.sign payload;
    }

unfoldable pub create_audit_checkpoint :
    Crypto → (now : String) → AuditEvent → AuditManager → AuditManager
unfolding trim
create_audit_checkpoint c now last m =
    if is_between m.audit_checkpoint_interval last.chain_index then m else record m {
      audit_checkpoints =
          trim m.audit_max_events (m.audit_checkpoints ++ build_checkpoint c now last ∷ []);
    }

unfoldable pub record_audit_event :
    Crypto → (now : String) → Recording → AuditManager → AuditManager
unfolding trim create_audit_checkpoint chained_event
record_audit_event c now r m =
    let last = last_event m.audit_events in
    let chained = chained_event c r (next_index last) (next_prev last) in
    create_audit_checkpoint c now chained
      (record m { audit_events = trim m.audit_max_events (m.audit_events ++ chained ∷ []) })

-- The errors, each with the position that its text ends with.
pub data AuditError : Type 0 where
  event_chain_index_mismatch : (at expected got : ℕ) → AuditError
  event_prev_hash_mismatch event_hash_mismatch : (at : ℕ) → AuditError
  checkpoint_key_id_mismatch checkpoint_signature_invalid : (at : ℕ) → AuditError
  checkpoint_missing_chain_index checkpoint_event_hash_mismatch : (at : ℕ) → AuditError

-- `if (test) errors.push(error)`, in front of the errors that follow.
abbrev pub push_if : Bool → AuditError → List AuditError → List AuditError
push_if false e errors = errors
push_if true e errors = e ∷ errors

-- The first loop, from a position on and with the hash of the event before it.
unfoldable pub check_events : Crypto → ℕ → String → List AuditEvent → List AuditError
unfolding hash_audit_event_base
check_events c index expected_prev [] = []
check_events c index expected_prev (e ∷ es) =
    push_if (not (e.chain_index == index + 1))
      (event_chain_index_mismatch index (index + 1) e.chain_index)
      (push_if (not (str_eq e.prev_event_hash expected_prev)) (event_prev_hash_mismatch index) (
        push_if
          (not
            (str_eq e.event_hash (hash_audit_event_base c e.event e.chain_index e.prev_event_hash)))
          (event_hash_mismatch index) (check_events c (index + 1) e.event_hash es)))

-- `id !== null && id === key_id`, negated by the caller: a signature without a key id never matches.
abbrev pub is_key_id : Option String → String → Bool
is_key_id none key_id = false
is_key_id (some id) key_id = str_eq id key_id

unfoldable pub find_event : List AuditEvent → ℕ → Option AuditEvent
find_event es index = find? (λ e. e.chain_index == index) es

-- What the second loop says of the event that a checkpoint names.
abbrev pub check_target :
    ℕ → AuditCheckpoint → Option AuditEvent → List AuditError → List AuditError
check_target index k none errors = checkpoint_missing_chain_index index ∷ errors
check_target index k (some e) errors =
    push_if (not (str_eq e.event_hash k.payload.last_event_hash))
      (checkpoint_event_hash_mismatch index) errors

unfoldable pub check_checkpoints :
    Crypto → List AuditEvent → ℕ → List AuditCheckpoint → List AuditError
unfolding find_event
check_checkpoints c es index [] = []
check_checkpoints c es index (k ∷ ks) =
    push_if (not (is_key_id (c.signature_key_id k.signature) k.key_id))
      (checkpoint_key_id_mismatch index)
      (push_if (not (c.verify k.payload k.signature)) (checkpoint_signature_invalid index) (
        check_target index k (find_event es k.payload.last_chain_index)
          (check_checkpoints c es (index + 1) ks)))

pub record Verdict : Type 0 where
  pub ok : Bool
  pub errors : List AuditError
  pub events_checked : ℕ
  pub checkpoints_checked : ℕ
  pub latest_chain_index : ℕ

abbrev pub is_empty : List AuditError → Bool
is_empty [] = true
is_empty (e ∷ errors) = false

abbrev pub index_of : Option AuditEvent → ℕ
index_of none = 0
index_of (some e) = e.chain_index

unfoldable pub verify_audit_integrity : Crypto → AuditManager → Verdict
unfolding check_events check_checkpoints
verify_audit_integrity c m =
    let errors =
      check_events c 0 "GENESIS" m.audit_events
      ++ check_checkpoints c m.audit_events 0 m.audit_checkpoints in
    record {
      ok = is_empty errors;
      errors = errors;
      events_checked = length m.audit_events;
      checkpoints_checked = length m.audit_checkpoints;
      latest_chain_index = index_of (last_event m.audit_events);
    }
