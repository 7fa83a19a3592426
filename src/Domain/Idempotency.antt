-- ===== src/Domain/Idempotency.antt =====
-- internal/domain/idempotency.go: the key that is sent with a booking call.
use Prim.Native.String.{◌++◌}
use resy_snipe.Prelude.{String, ℕ, Option, none, some}
use resy_snipe.Providers.{ResySlotPayload}

-- writeSlotPayloadCanonical: the book token and the payment method are left out.
unfoldable pub slot_payload_text : Option ResySlotPayload → String
slot_payload_text none = "slot=<nil>\n"
slot_payload_text (some p) =
    "slot=resy config=" ++ p.config_id ++ " template=" ++ p.template_id ++ " seating="
    ++ p.seating_type ++ "\n"

-- IdempotencyKey.
unfoldable pub idempotency_key :
    (ℕ → String) → (String → String) → String → Option ResySlotPayload → ℕ → String
idempotency_key decimal sha256_hex intent_hash payload attempt = sha256_hex (
    "intent="
    ++ intent_hash
    ++ "\n"
    ++ slot_payload_text payload
    ++ "attempt="
    ++ decimal attempt
    ++ "\n")
