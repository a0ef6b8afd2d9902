-- ===== src/Gateway/Contracts.antt =====
-- gateway/contracts.py and gateway/provider.py: the requests and plans that the parts exchange.
-- A temperature is only handed through, so it is kept as its decimal text.
use mnemostroma.Prelude.{ℕ, String, Bool, Option, List}

pub record ChatMessage : Type 0 where
  pub role : String
  pub content : String

pub record ChatRequest : Type 0 where
  pub model : String
  pub messages : List ChatMessage
  pub stream : Bool
  pub temperature : Option String
  pub max_tokens : Option ℕ

-- The modes that `MemoryPlan.mode` is declared to take.
pub data MemoryMode : Type 0 where
  off planned active : MemoryMode

pub record MemoryPlan : Type 0 where
  pub mode : MemoryMode
  pub would_inject : Bool
  pub would_observe : Bool
  pub source_message_index : Option ℕ
  pub max_tokens : Option ℕ

pub data DispatchMode : Type 0 where
  disabled configured : DispatchMode

pub record ProviderPlan : Type 0 where
  pub mode : DispatchMode
  pub would_dispatch : Bool
  pub upstream_path : Option String

-- What is sent to the provider.
pub record ProviderRequest : Type 0 where
  pub model : String
  pub messages : List ChatMessage
  pub stream : Bool
  pub temperature : Option String
  pub max_tokens : Option ℕ
  pub memory_injection : String
