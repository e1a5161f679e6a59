-- ===== src/Mcp/Render.antt =====
-- `formatAnswer` and `formatUsage` of internal/mcp/server.go.
use perplexity_proxy_go.Prelude.{
  suc, ℤ, pos, negsuc, ◌&&◌, not, List, [], ◌∷◌, none, some, String, ◌==◌, ◌⧺◌, if◌then◌else◌,
}
use perplexity_proxy_go.Errors.{decimal}
use perplexity_proxy_go.Pplx.Sse.{Citation}
use perplexity_proxy_go.Pplx.Conversation.{Answer}
use perplexity_proxy_go.Pplx.Usage.{SourceLimit, RateLimits}

-- `%d`
unfoldable pub int_text : ℤ → String
int_text (pos n) = decimal n
int_text (negsuc n) = "-" ⧺ decimal (suc n)

-- a line of the sources
abbrev pub source_line : Citation → String
source_line c =
    if not (c.title == "") && not (c.url == "")
    then "[" ⧺ int_text c.index ⧺ "] " ⧺ c.title ⧺ " — " ⧺ c.url ⧺ "\n"
    else if not (c.url == "")
    then "[" ⧺ int_text c.index ⧺ "] " ⧺ c.url ⧺ "\n"
    else "[" ⧺ int_text c.index ⧺ "] " ⧺ c.title ⧺ "\n"

unfoldable pub source_lines : List Citation → String
source_lines [] = ""
source_lines (c ∷ cs) = source_line c ⧺ source_lines cs

abbrev pub sources : List Citation → String
sources [] = ""
sources (c ∷ cs) = "\n\nSources:\n" ⧺ source_lines (c ∷ cs)

-- `formatAnswer`; no caller passes nil
unfoldable pub format_answer : Answer → String
format_answer ans =
    if ans.text == "" then "(no answer returned)" else ans.text ⧺ sources ans.citations

-- a line of a source with a monthly cap that says how much is left
abbrev limit_line : SourceLimit → String
limit_line s = elim s.monthly_limit [
  | none ↦ ""
  | some cap ↦ elim s.remaining [
    | none ↦ ""
    | some left ↦ "\nsource " ⧺ s.source_id ⧺ ": " ⧺ int_text left ⧺ "/" ⧺ int_text cap
  ]
]

unfoldable pub limit_lines : List SourceLimit → String
unfolding int_text
limit_lines [] = ""
limit_lines (s ∷ ss) = limit_line s ⧺ limit_lines ss

-- `formatUsage`
unfoldable pub format_usage : RateLimits → String
unfolding limit_lines
format_usage rl =
    "Pro Search: "
    ⧺ int_text rl.remaining_pro
    ⧺ " remaining\nDeep Research: "
    ⧺ int_text rl.remaining_research
    ⧺ " remaining\nCreate Files & Apps: "
    ⧺ int_text rl.remaining_labs
    ⧺ " remaining\nBrowser Agent: "
    ⧺ int_text rl.remaining_agentic_research
    ⧺ " remaining"
    ⧺ limit_lines rl.source_limits
