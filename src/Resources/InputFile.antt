-- ===== src/Resources/InputFile.antt =====
-- pkg/api/business/resources/service.go: the text of the batch's input file, of which `DispatchTask`
-- logs the beginning and does nothing else. `json.Marshal` at `[]BatchMessage` and the printing of
-- a number are parameters.
use Prim.Native.String.{len, slice}
use bfo.Common.{
  ◌≢◌, ℕ, ltb, leb, arith, String, List, Option, none, some, Res, ok, panic, if◌then◌else◌, ◌<>◌,
  Int64,
}
use mathlib.Core.List.{map}
use bfo.Tasks.Types.{TaskMessage, Task}

pub record BatchMessage : Type 0 where
  pub role : String
  pub content : String

abbrev pub batch_messages : List TaskMessage → List BatchMessage
batch_messages = map (λ m. record { role = m.role; content = m.content })

abbrev pub min : ℕ → ℕ → ℕ
min a b = if ltb a b then a else b

-- `text[:end]`, which panics past the end of the text; the bytes of a character that `end` cuts are
-- left out
abbrev pub prefix_of : String → ℕ → Res String
prefix_of text end = if leb end (len text) then ok (slice text 0 end) else panic

module _ (marshal : List BatchMessage → Option String) (print : Int64 → String) where
  -- An error, which is `none`, is printed, and gives no messages.
  unfoldable pub convert_messages_to_json : List TaskMessage → String
  convert_messages_to_json messages = elim (marshal (batch_messages messages)) [
    | some json ↦ json
    | none ↦ "[]"
  ]

  unfoldable pub input_file_content : Task → String
  input_file_content task =
      "{\"custom_id\": \""
      <> task.id
      <> "\", \"method\": \"POST\", \"url\": \""
      <> "/v1/chat/completions"
      <> "\", \"body\": {\"model\": \""
      <> "gpt-3.5-turbo"
      <> "\", \"messages\": "
      <> convert_messages_to_json task.messages
      <> ", \"max_tokens\": "
      <> print task.max_tokens
      <> "}}"

  -- the beginning that is logged
  unfoldable pub content_snippet : Task → Res String
  content_snippet task =
      let content = input_file_content task in prefix_of content (min 100 (len content))

  -- The logging of the beginning never panics.
  pub content_snippet-returns : (task : Task) → content_snippet task ≢ panic
  unfolding content_snippet
  content_snippet-returns task = ground arith
