-- ===== src/Cli/Print.antt =====
-- What cmd/pplx/commands.go prints: `printAnswer`, `printUsage`, `friendlyErr`, `truncate`.
pub mod Agreement
use Prim.Native.String.{len, slice}
use perplexity_proxy_go.Prelude.{
  ℕ, Bool, true, false, ◌||◌, ◌&&◌, not, List, [], ◌∷◌, Option, none, some, String, ◌==◌, ◌⧺◌, leb,
  eqb, if◌then◌else◌,
}
use perplexity_proxy_go.Errors.{
  Failure, plain, clarifying, rate_limited, totp_required, is, as_clarifying, as_status, decimal,
}
use perplexity_proxy_go.Pplx.Sse.{Citation}
use perplexity_proxy_go.Pplx.Conversation.{Answer}
use perplexity_proxy_go.Pplx.Usage.{SourceLimit, RateLimits}
use perplexity_proxy_go.Mcp.Render.{int_text}

abbrev pub printed_text : String → String
printed_text text = if text == "" then "(no answer returned)" else text

-- a line of the sources
unfoldable pub printed_line : Citation → String
printed_line c =
    if not (c.title == "") && not (c.url == "")
    then "[" ⧺ int_text c.index ⧺ "] " ⧺ c.title ⧺ " — " ⧺ c.url ⧺ "\n"
    else if not (c.url == "")
    then "[" ⧺ int_text c.index ⧺ "] " ⧺ c.url ⧺ "\n"
    else "[" ⧺ int_text c.index ⧺ "] " ⧺ c.title ⧺ "\n"

unfoldable pub printed_lines : List Citation → String
unfolding printed_line
printed_lines [] = ""
printed_lines (c ∷ cs) = printed_line c ⧺ printed_lines cs

abbrev pub printed_sources : Bool → List Citation → String
printed_sources false cs = ""
printed_sources true [] = ""
printed_sources true (c ∷ cs) = "\nSources:\n" ⧺ printed_lines (c ∷ cs)

-- `printAnswer`, of an answer that is not nil
unfoldable pub print_answer : Answer → Bool → String
unfolding printed_lines
print_answer ans with_citations =
    printed_text ans.text ⧺ "\n" ⧺ printed_sources with_citations ans.citations

abbrev capped_line : SourceLimit → String
capped_line s = elim s.monthly_limit [
  | none ↦ ""
  | some cap ↦ elim s.remaining [
    | none ↦ "  source " ⧺ s.source_id ⧺ ": —\n"
    | some left ↦ "  source " ⧺ s.source_id ⧺ ": " ⧺ int_text left ⧺ "/" ⧺ int_text cap ⧺ "\n"
  ]
]

unfoldable pub capped_lines : List SourceLimit → String
unfolding int_text
capped_lines [] = ""
capped_lines (s ∷ ss) = capped_line s ⧺ capped_lines ss

-- `printUsage`
unfoldable pub print_usage : RateLimits → String
unfolding capped_lines
print_usage rl =
    "Pro Search:          "
    ⧺ int_text rl.remaining_pro
    ⧺ " remaining\nDeep Research:       "
    ⧺ int_text rl.remaining_research
    ⧺ " remaining\nCreate Files & Apps: "
    ⧺ int_text rl.remaining_labs
    ⧺ " remaining\nBrowser Agent:       "
    ⧺ int_text rl.remaining_agentic_research
    ⧺ " remaining\n"
    ⧺ capped_lines rl.source_limits

-- `truncate`, which counts bytes
unfoldable pub truncate : String → ℕ → String
truncate s n = if leb (len s) n then s else slice s 0 n ⧺ "..."

abbrev status_failure : ℕ → String → Failure
status_failure code body =
    if eqb code 401 || eqb code 403
    then plain ("not authenticated (HTTP " ⧺ decimal code ⧺ ") — run 'pplx login'")
    else if eqb code 429
    then plain "rate limited (HTTP 429) — try again later"
    else plain ("HTTP " ⧺ decimal code ⧺ ": " ⧺ truncate body 200)

abbrev by_status : Failure → Option (ℕ × String × String) → Failure
by_status e none = e
by_status e (some (code, url, body)) = status_failure code body

abbrev by_kind : Failure → Option (List String) → Failure
by_kind e (some qs) = clarifying qs
by_kind e none =
    if is rate_limited e
    then plain "rate limited by Perplexity — wait for the quota to reset or upgrade your plan"
    else if is totp_required e
    then e
    else by_status e (as_status e)

-- `friendlyErr`
unfoldable pub friendly_err : Failure → Failure
friendly_err e = by_kind e (as_clarifying e)
