-- ===== src/Orchestrator/Messages.antt =====
-- modelpolicy/chat.go and agentorchestrator/prompt.go: messages to and from the model. A text is its
-- bytes.
use nexixai_agentos.Prelude.{string_key}
use nexixai_agentos.Prelude.{ℕ, String, List, [], ◌∷◌, ◌++◌}
use nexixai_agentos.Pii.Patterns.{Bytes}

pub record ToolCall : Type 0 where
  pub id : String
  pub name : String
  pub arguments : Bytes

-- A part of a multipart content: a text, or anything else.
pub data Part : Type 0 where
  text_part : Bytes → Part
  other_part : Part

pub data Content : Type 0 where
  plain : Bytes → Content
  parts : List Part → Content
  no_content : Content

pub record Message : Type 0 where
  pub role : String
  pub content : Content
  pub tool_calls : List ToolCall
  pub tool_call_id : String
  pub name : String

pub record ChatUsage : Type 0 where
  pub prompt_tokens : ℕ
  pub completion_tokens : ℕ
  pub total_tokens : ℕ

abbrev pub no_usage : ChatUsage
no_usage = record { prompt_tokens = 0; completion_tokens = 0; total_tokens = 0 }

pub record ChatChoice : Type 0 where
  pub message : Message
  pub finish_reason : String

pub record ChatResponse : Type 0 where
  pub choices : List ChatChoice
  pub usage : ChatUsage

abbrev chunks_of : List Part → List Bytes
chunks_of [] = []
chunks_of (text_part [] ∷ ps) = chunks_of ps
chunks_of (text_part (b ∷ text) ∷ ps) = (b ∷ text) ∷ chunks_of ps
chunks_of (other_part ∷ ps) = chunks_of ps

abbrev spaced : List Bytes → Bytes
spaced [] = []
spaced (c ∷ cs) = b' ' ∷ c ++ spaced cs

abbrev joined : List Bytes → Bytes
joined [] = []
joined (c ∷ cs) = c ++ spaced cs

unfoldable pub message_text : Content → Bytes
message_text (plain text) = text
message_text (parts ps) = joined (chunks_of ps)
message_text no_content = []

abbrev pub message_of : String → Bytes → Message
message_of role text = record {
  role = role;
  content = plain text;
  tool_calls = [];
  tool_call_id = "";
  name = "";
}

abbrev spoken : String → Bytes → List Message
spoken role [] = []
spoken role (b ∷ text) = message_of role (b ∷ text) ∷ []

-- The system prompt, the history and the input of the run; an empty text makes no message.
unfoldable pub build_prompt : Bytes → Bytes → List Message → List Message
build_prompt system_prompt input history =
    spoken "system" system_prompt ++ (history ++ spoken "user" input)
