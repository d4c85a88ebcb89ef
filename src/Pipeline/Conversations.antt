-- ===== src/Pipeline/Conversations.antt =====
-- data_pipeline/normalizers.py: the normalizers of datasets of conversations and of instructions.
use Prim.Native.Nat.{max as greatest}
use Prim.Native.String.{◌++◌ as ◌<>◌}
use nimbus_mesh_x.Base.{
  ℕ, ◌/◌, ◌%◌, nat_beq, String, string_eq, ◌==◌, Bool, not, ◌&&◌, ◌||◌, if◌then◌else◌, List, [],
  ◌∷◌, Option, some, none, Result, ok, err, attribute_error, ◌>>=◌,
}
use nimbus_mesh_x.Base.Int.{ℤ}
use nimbus_mesh_x.Base.Text.{show, show_padded}
use nimbus_mesh_x.Base.Words.{strip, lower}
use nimbus_mesh_x.Base.Dict.{Dict, get_or}
use nimbus_mesh_x.Float.{Float, of_ℕ}
use nimbus_mesh_x.Json.{
  Value, null, text, array, no_values, Formats, methods, iterate, ◌or◌, truth, to_text,
}
use nimbus_mesh_x.Pipeline.Rows.{NormalizedWorkloadRow, approx_token_length}
use nimbus_mesh_x.Pipeline.Normalizers.{mod_ℤ}

-- `role in {"human", "user"}` and `role in {"gpt", "assistant"}`
unfoldable pub asks : String → Bool
asks role = role == "human" || role == "user"

unfoldable pub answers : String → Bool
answers role = role == "gpt" || role == "assistant"

module _ {F : Type 0} ⦃f : Float F⦄ where
  abbrev pub get : String → Dict String (Value F) → Value F
  get key d = get_or key null d

  abbrev pub conversations_of : Dict String (Value F) → Value F
  conversations_of d = get "conversations" d or get "conversation" d or array no_values

  -- `.lower()` of a value that may be no text
  unfoldable pub lowered : Value F → Result String
  lowered (text s) = ok (lower s)
  lowered _ = err attribute_error

  -- One turn: which of the two it sets.
  unfoldable pub hear : String → Value F → Value F × Value F → Value F × Value F
  hear role value (prompt, response) =
      if not (truth prompt) && asks role
      then (value, response)
      else if not (truth response) && answers role
      then (prompt, value)
      else (prompt, response)

  -- The loop over the turns, which ends when both are found.
  unfoldable pub listen : List (Value F) → Value F × Value F → Result (Value F × Value F)
  listen [] heard = ok heard
  listen (turn ∷ turns) heard = do
    d ← methods turn
    role ← lowered (get "from" d or get "role" d or text "")
    let next = hear role (get "value" d or get "content" d or text "") heard
    let rest = listen turns next
    if truth next.0 && truth next.1 then ok next else rest

module _ {F : Type 0} ⦃f : Float F⦄ (formats : Formats F) (hash : Value F → Result ℤ) where
  unfoldable pub sharegpt_row : String → ℕ → Value F → Result (Option (NormalizedWorkloadRow F))
  sharegpt_row default_model index record_value = do
    d ← methods record_value
    let conversations = conversations_of d
    if not (truth conversations) then ok none else (do
      turns ← iterate conversations
      heard ← listen turns (text "", text "")
      prompt_length ← approx_token_length heard.0
      output_length ← approx_token_length heard.1
      let conv_id = get_or "id" (text ("sharegpt-" <> show_padded 6 index)) d
      hashed ← hash conv_id
      let tenant_id = "sharegpt-" <> show_padded 3 (mod_ℤ hashed 1000)
      ok (
          some (record {
            timestamp = of_ℕ index;
            request_id = to_text formats conv_id;
            prompt_length = prompt_length;
            expected_output_length = greatest 16 output_length;
            tenant_id = tenant_id;
            priority_class = "interactive";
            model_id = default_model;
            session_id = tenant_id <> "-session-" <> show (index / 6);
          })))

module _ {F : Type 0} ⦃f : Float F⦄ (formats : Formats F) where
  -- `approx_token_length(str(value))`
  abbrev pub length_of : Value F → Result ℕ
  length_of value = let shown : Value F = text (to_text formats value) in approx_token_length shown

  abbrev pub lmsys_prompt : Dict String (Value F) → Value F
  lmsys_prompt d =
      get "prompt" d or get "conversation_a" d or get "input" d or get "question" d or text ""

  abbrev pub lmsys_output : Dict String (Value F) → Value F
  lmsys_output d =
      get "response" d or get "conversation_b" d or get "output" d or get "answer" d or text ""

  unfoldable pub lmsys_row : String → ℕ → Value F → Result (Option (NormalizedWorkloadRow F))
  lmsys_row default_model index record_value = do
    d ← methods record_value
    prompt_length ← length_of (lmsys_prompt d)
    output_length ← length_of (lmsys_output d)
    let model_id = get "model" d or get "model_a" d or text default_model
    let tenant = get "user_id" d or text ("arena-" <> show_padded 3 (index % 64))
    ok (
        some (record {
          timestamp = of_ℕ index;
          request_id = to_text formats (get_or "id" (text ("lmsys-" <> show_padded 6 index)) d);
          prompt_length = prompt_length;
          expected_output_length = greatest 16 output_length;
          tenant_id = to_text formats tenant;
          priority_class = if nat_beq (index % 5) 0 then "realtime" else "interactive";
          model_id = to_text formats model_id;
          session_id = to_text formats tenant <> "-session-" <> show (index / 8);
        }))

  -- `f"{instruction}\n{context}".strip()`
  abbrev pub instruction_prompt : Dict String (Value F) → Value F
  instruction_prompt d =
      let instruction = get "instruction" d or get "prompt" d or get "query" d or text "" in
      let context = get "context" d or text "" in
      text (strip (to_text formats instruction <> "\n" <> to_text formats context))

  abbrev pub instruction_output : Dict String (Value F) → Value F
  instruction_output d = get "output" d or get "response" d or get "answer" d or text ""

  unfoldable pub instruction_row : String → ℕ → Value F → Result (Option (NormalizedWorkloadRow F))
  instruction_row default_model index record_value = do
    d ← methods record_value
    prompt_length ← approx_token_length (instruction_prompt d)
    output_length ← length_of (instruction_output d)
    let tenant = "open-llm-" <> show_padded 2 (index % 48)
    ok (
        some (record {
          timestamp = of_ℕ index;
          request_id = to_text formats (get_or "id" (text ("open-llm-" <> show_padded 7 index)) d);
          prompt_length = prompt_length;
          expected_output_length = greatest 16 output_length;
          tenant_id = tenant;
          priority_class = "interactive";
          model_id = default_model;
          session_id = tenant <> "-session-" <> show (index / 5);
        }))
