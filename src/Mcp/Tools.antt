-- ===== src/Mcp/Tools.antt =====
-- The tools of internal/mcp/server.go: `toolsList`, `callTool`, `specCheck`.
use perplexity_proxy_go.Prelude.{
  ℕ, Bool, true, false, List, [], ◌∷◌, Option, none, some, String, ◌==◌, ◌⧺◌, if◌then◌else◌,
}
use perplexity_proxy_go.Errors.{
  Failure, wrapped, sentinel, invalid_params, message, Result, ok, err, ◌>>=◌,
}
use perplexity_proxy_go.Json.{
  Value, num, str, arr, obj, array, Fields, end, field, at, to_str, to_document,
}
use perplexity_proxy_go.Spec.Decode.{Spec}
use perplexity_proxy_go.Transport.Client.{Client, Host}
use perplexity_proxy_go.Pplx.Conversation.{AskOptions, Answer, Conversation, new_conversation}
use perplexity_proxy_go.Pplx.Ask.{ask}
use perplexity_proxy_go.Pplx.Bridge.{Bridge}
use perplexity_proxy_go.Pplx.Usage.{SourceLimit, RateLimits, usage}
use perplexity_proxy_go.Mcp.Render.{format_answer, format_usage}

abbrev string_schema : String → Value
string_schema description =
    obj (field "type" (str "string") (field "description" (str description) end))

abbrev object_schema : Fields → Fields → Value
object_schema properties rest =
    obj (field "type" (str "object") (field "properties" (obj properties) rest))

abbrev requires_query : Fields
requires_query = field "required" (arr (array (str "query" ∷ []))) end

abbrev tool : String → String → Value → Value
tool name description schema = obj (
    field "name" (str name)
      (field "description" (str description) (field "inputSchema" schema end)))

-- `toolsList`
unfoldable pub tools_list : Value
tools_list = obj (
    field "tools"
      (arr (
        array (
          tool "pplx_ask" "Ask Perplexity a question; returns the answer with numbered citations." (
            object_schema
              (field "query" (string_schema "The question to ask") (
                field "model"
                  (string_schema
                    "Model name or identifier (optional, e.g. best, glm, claude-sonnet-5)")
                  (field "source_focus"
                    (string_schema "Source focus: web, scholar, social, edgar (optional)") end)))
              requires_query)
          ∷ tool "pplx_deep_research"
              "Run a Deep Research report (model deep-research). Slower; returns the full report."
              (object_schema (field "query" (string_schema "The research question") end)
                requires_query)
          ∷ tool "pplx_usage"
              "Remaining Perplexity rate limits (Pro Search, Deep Research, Labs, Browser Agent, per-source caps)."
              (object_schema end end)
          ∷ tool "pplx_spec_check"
              "Smoke-test the Perplexity endpoints (rate-limits, ask, thread list) and report PASS/FAIL per endpoint. Consumes one query."
              (object_schema end end)
          ∷ [])))
      end)

-- an error with `errInvalidParams` at its head
abbrev pub invalid : String → Failure
invalid text = wrapped "" (sentinel invalid_params) (": " ⧺ text)

abbrev require_query : String → Result (String × AskOptions) → Result (String × AskOptions)
require_query tool (err e) = err (invalid (tool ⧺ " requires {query}"))
require_query tool (ok (query, opt)) =
    if query == "" then err (invalid (tool ⧺ " requires {query}")) else ok (query, opt)

-- the struct `a` of the tool pplx_ask, with what it passes to `Ask`
unfoldable pub ask_arguments : Option Value → Result (String × AskOptions)
ask_arguments args = require_query "pplx_ask" (do
  fs ← to_document args
  query ← to_str (at "query" fs)
  model ← to_str (at "model" fs)
  focus ← to_str (at "source_focus" fs)
  ok (query, record { model = model; source_focus = focus }))

-- the same of pplx_deep_research
unfoldable pub research_arguments : Option Value → Result (String × AskOptions)
research_arguments args = require_query "pplx_deep_research" (do
  fs ← to_document args
  query ← to_str (at "query" fs)
  ok (query, record { model = "deep-research"; source_focus = "" }))

-- a step of `specCheck`: the error of a result, where it has one
abbrev error_of : {A : Type 0} → Result A → Option Failure
error_of (ok a) = none
error_of (err e) = some e

unfoldable pub report_steps : List (String × Option Failure) → String
report_steps [] = ""
report_steps ((name, none) ∷ steps) = "PASS " ⧺ name ⧺ "\n" ⧺ report_steps steps
report_steps ((name, some e) ∷ steps) =
    "FAIL " ⧺ name ⧺ ": " ⧺ message e ⧺ "\n" ⧺ report_steps steps

unfoldable pub none_failed : List (String × Option Failure) → Bool
none_failed [] = true
none_failed ((name, none) ∷ steps) = none_failed steps
none_failed ((name, some e) ∷ steps) = false

-- the report of `specCheck`
unfoldable pub report : List (String × Option Failure) → String
report steps = report_steps steps ⧺ (if none_failed steps then "All endpoints OK." else "")

abbrev list_query : Value
list_query =
    obj (field "limit" (num "1") (field "offset" (num "0") (field "search_term" (str "") end)))

module _ {W : Type 0} (host : Host) (order : List SourceLimit → List SourceLimit)
    (client : Client W) (bridge : Bridge W) where
  -- `specCheck`
  unfoldable pub spec_check : Spec → W → String × W
  spec_check sp w =
      let (limits, w₁) = usage order client sp w in
      let (answer, c, w₂) =
        ask host client bridge "ping" (record { model = ""; source_focus = "" })
          (new_conversation sp) w₁ in
      let (threads, w₃) = client.post_json sp.endpoints.list_threads list_query w₂ in
      (
        report (
            ("rate-limits", error_of limits)
            ∷ ("ask", error_of answer)
            ∷ ("thread-list", error_of threads)
            ∷ []),
        w₃,
      )

  abbrev formatted : Result Answer × Conversation × W → Result String × W
  formatted (r, c, w) = (r >>= (λ a. ok (format_answer a)), w)

  abbrev ask_tool : Spec → Result (String × AskOptions) → W → Result String × W
  ask_tool sp (err e) w = (err e, w)
  ask_tool sp (ok (query, opt)) w =
      formatted (ask host client bridge query opt (new_conversation sp) w)

  abbrev usage_tool : Result RateLimits × W → Result String × W
  usage_tool (r, w) = (r >>= (λ rl. ok (format_usage rl)), w)

  abbrev checked_tool : String × W → Result String × W
  checked_tool (text, w) = (ok text, w)

  -- the switch of `callTool`
  unfoldable pub switch_tool : Spec → String → Option Value → W → Result String × W
  switch_tool sp name args w =
      if name == "pplx_ask"
      then ask_tool sp (ask_arguments args) w
      else if name == "pplx_deep_research"
      then ask_tool sp (research_arguments args) w
      else if name == "pplx_usage"
      then usage_tool (usage order client sp w)
      else if name == "pplx_spec_check"
      then checked_tool (spec_check sp w)
      else (err (invalid ("unknown tool " ⧺ host.quote name)), w)

module _ {W : Type 0} (host : Host) (order : List SourceLimit → List SourceLimit)
    (clients : ℕ → Client W) (bridge : Bridge W) where
  abbrev pub on_client : String → Option Value → Result (ℕ × Spec) × W → Result String × W
  on_client name args (err e, w) = (err (wrapped "client: " e ""), w)
  on_client name args (ok (t, sp), w) = switch_tool host order (clients t) bridge sp name args w

  -- `callTool`
  unfoldable pub call_tool :
      (W → Result (ℕ × Spec) × W) → String → Option Value → W → Result String × W
  call_tool factory name args w = on_client name args (factory w)
