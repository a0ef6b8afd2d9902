-- ===== src/Gateway/Plans/Tests.antt =====
-- Concrete plans and materialized requests.
use mnemostroma.Prelude.{◌≡◌, refl, false, none, some, [], ◌∷◌}
use mnemostroma.Gateway.Contracts.{ChatRequest}
use mnemostroma.Gateway.Plans.{materialize_provider_request}

abbrev request : ChatRequest
request = record {
  model = "gpt-4o";
  messages =
      record { role = "system"; content = "be brief" }
      ∷ record { role = "user"; content = "hello" }
      ∷ [];
  stream = false;
  temperature = none;
  max_tokens = none;
}

-- The memory stands between the system message and the message of the user.
materialized :
    (materialize_provider_request request (some "likes tea")).messages
    ≡ record { role = "system"; content = "be brief" }
      ∷ record { role = "system"; content = "likes tea" }
      ∷ record { role = "user"; content = "hello" }
      ∷ []
unfolding materialize_provider_request
materialized = refl
