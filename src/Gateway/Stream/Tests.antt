-- ===== src/Gateway/Stream/Tests.antt =====
-- A concrete stream, of which two characters at most are captured.
use mnemostroma.Prelude.{ℕ, true, false, none, List, [], ◌∷◌, string_eq}
use mnemostroma.Gateway.Stream.{GatewayRequest, Tables, Fresh}

abbrev request : GatewayRequest
request = record {
  request_id = "r1";
  conversation_id = "c";
  client_id = "k";
  project_id = none;
  provider_id = "p";
  model = "gpt-4o";
  observe_user = true;
  observe_assistant = true;
  allow_partial_capture = false;
}

abbrev fresh : Fresh
fresh = record { event_id = "e1"; now = 60; sha256 = λ s. s }

abbrev tables : Tables
tables = record { outbox = []; audit = [] }

abbrev chunks : List (List ℕ)
chunks = (104 ∷ []) ∷ [] ∷ (105 ∷ 33 ∷ []) ∷ []
