-- ===== src/Cli/Print/Agreement.antt =====
-- The MCP server renders an answer as the command line prints it.
use text.Mathlib.TextLemmas.{append-nil, append_assoc}
use perplexity_proxy_go.Prelude.{
  true, false, ◌≡◌, ◌≢◌, refl, ap, sym, ◌∙◌, List, [], ◌∷◌, String, ◌==◌, ◌⧺◌, eq_iff, arith,
}
use perplexity_proxy_go.Pplx.Sse.{Citation}
use perplexity_proxy_go.Pplx.Conversation.{Answer}
use perplexity_proxy_go.Mcp.Render.{sources, source_line, source_lines, format_answer}
use perplexity_proxy_go.Cli.Print.{printed_line, printed_lines, printed_sources, print_answer}

-- the newline that ends an answer without sources
abbrev pub final_newline : List Citation → String
final_newline [] = "\n"
final_newline (c ∷ cs) = ""

printed_line-eq-source_line : (c : Citation) → printed_line c ≡ source_line c
unfolding printed_line
printed_line-eq-source_line c = ground arith

printed_lines-eq-source_lines : (cs : List Citation) → printed_lines cs ≡ source_lines cs
unfolding printed_lines source_lines
printed_lines-eq-source_lines [] = refl
printed_lines-eq-source_lines (c ∷ cs) =
    rw (printed_line-eq-source_line c, printed_lines-eq-source_lines cs) refl

sources-printed :
    (cs : List Citation) → "\n" ⧺ printed_sources true cs ≡ sources cs ⧺ final_newline cs
sources-printed [] = refl
sources-printed (c ∷ cs) =
    let lines = source_lines (c ∷ cs) in
    ap (λ s. "\n" ⧺ ("\nSources:\n" ⧺ s)) (printed_lines-eq-source_lines (c ∷ cs))
    ∙ sym (append_assoc "\n" "\nSources:\n" lines)
    ∙ sym (append-nil ("\n\nSources:\n" ⧺ lines))

-- An answer with a text: what `printAnswer` prints, with citations, is what `formatAnswer` renders,
-- line by line of the sources, and a newline where there are no citations.
pub print_answer-format_answer :
    (ans : Answer)
    → ans.text ≢ ""
    → print_answer ans true ≡ format_answer ans ⧺ final_newline ans.citations
unfolding print_answer format_answer
print_answer-format_answer ans h =
    let present : (ans.text == "") ≡ false = ground (arith, eq_iff ans.text "") in
    rw present (
      append_assoc ans.text "\n" (printed_sources true ans.citations)
      ∙ ap (λ s. ans.text ⧺ s) (sources-printed ans.citations)
      ∙ sym (append_assoc ans.text (sources ans.citations) (final_newline ans.citations)))
