-- ===== src/Examples/Text.antt =====
-- The text and JSON helpers on concrete inputs.
use organization_ai.Base.{true, false, some, [], ◌∷◌, ◌≡◌, refl}
use organization_ai.Base.Int.{pos, negsuc}
use organization_ai.Base.Json.{uuid_text}
use organization_ai.Base.Text.{codes, is_blank, format}
use organization_ai.Base.Text.Decimal.{int_text}
use organization_ai.Domain.Control.Vocabulary.{
  paused, demo_reviewed, record_demo_review, demo_allow,
}
use organization_ai.Domain.Control.Plan.{expected_states}
use organization_ai.Application.Views.{trace_not_found}
use organization_ai.Application.Messages.{own_message}
use organization_ai.Application.Fingerprint.{canonical_command}

is_blank_tests : (is_blank "" ≡ true) × (is_blank " \t\n" ≡ true) × (is_blank " a " ≡ false)
unfolding is_blank
is_blank_tests = (refl, refl, refl)

int_text_tests : (int_text (pos 1500) ≡ "1500") × (int_text (negsuc 0) ≡ "-1")
unfolding int_text
int_text_tests = (refl, refl)

uuid_text_test :
    uuid_text 0x00112233445566778899aabbccddeeff ≡ "00112233-4455-6677-8899-aabbccddeeff"
unfolding uuid_text
uuid_text_test = refl

expected_states_test :
    expected_states (paused ∷ demo_reviewed ∷ []) ≡ "expected state DEMO_REVIEWED or PAUSED"
unfolding expected_states
expected_states_test = refl

canonical_command_test :
    canonical_command 1 record_demo_review "a\n\"é" (some demo_allow)
    ≡ codes
        "{\"command\":\"record_demo_review\",\"disposition\":\"DEMO_ALLOW\",\"reason\":\"a\\n\\\"\\u00e9\",\"trace_id\":\"00000000-0000-0000-0000-000000000001\"}"
unfolding canonical_command
canonical_command_test = refl

message_test :
    own_message (λ s. s) (trace_not_found 1)
    ≡ some "no temporary trace exists for trace_id UUID('00000000-0000-0000-0000-000000000001')"
unfolding own_message uuid_text format
message_test = refl
