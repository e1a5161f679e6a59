-- ===== src/Witnesses/Tests.antt =====
-- Runs of the definitions at fixed inputs.
use perplexity_proxy_go.Prelude.{◌≡◌, refl, [], ◌∷◌, none, lookup}
use mathlib.Core.List.{filter_map}
use perplexity_proxy_go.Errors.{decimal}
use perplexity_proxy_go.Transport.Space.{trim_space, trim_cr}
use perplexity_proxy_go.Transport.Jar.{Jar, get}
use perplexity_proxy_go.Api.Events.{estimate_tokens}
use perplexity_proxy_go.Cli.Space.{trim_text}
use perplexity_proxy_go.Cli.Sync.Upstream.{parse_upstream}
use perplexity_proxy_go.Cli.Sync.Drift.{sort, diff_patch}
use perplexity_proxy_go.Cli.Sync.Overrides.{nil_map, merge}
use perplexity_proxy_go.Cli.Sync.Command.{filepath_dir}
use perplexity_proxy_go.Witnesses.Samples.{spec}

decimal_tests : decimal 4096 ≡ "4096"
unfolding decimal
decimal_tests = refl

trim_tests :
    (trim_space (32 ∷ 0xc2 ∷ 0xa0 ∷ 65 ∷ 66 ∷ 0xe3 ∷ 0x80 ∷ 0x80 ∷ 10 ∷ []) ≡ 65 ∷ 66 ∷ [])
    × (trim_cr (65 ∷ 13 ∷ 66 ∷ 13 ∷ 13 ∷ []) ≡ 65 ∷ 13 ∷ 66 ∷ [])
unfolding trim_space trim_cr
trim_tests = (refl, refl)

abbrev sample : Jar
sample = record {
  host = "h";
  cookies = ("s.10", "c") ∷ ("s.2", "b") ∷ ("s.-1", "x") ∷ ("s.0", "a") ∷ [];
}

get_tests : (get sample "s" ≡ "abc") × (get sample "s.2" ≡ "b") × (get sample "t" ≡ "")
unfolding get lookup filter_map
get_tests = (refl, refl, refl)

estimate_tokens_empty : estimate_tokens "" ≡ 0
unfolding estimate_tokens
estimate_tokens_empty = refl

trim_text_tests : trim_text " \t a b\r\n" ≡ "a b"
unfolding trim_text
trim_text_tests = refl

filepath_dir_tests :
    (filepath_dir "/root/.pplx/x.json" ≡ "/root/.pplx")
    × (filepath_dir "/x" ≡ ".")
    × (filepath_dir "x" ≡ ".")
unfolding filepath_dir
filepath_dir_tests = (refl, refl, refl)

sort_tests : sort ("upload" ∷ "ask" ∷ "credits" ∷ []) ≡ "ask" ∷ "credits" ∷ "upload" ∷ []
unfolding sort
sort_tests = refl

parse_upstream_tests :
    parse_upstream
      "X = 1\nAPI_VERSION: Final[str] = \"2.19\"  # x\n  ENDPOINT_ASK:Final[str]=\"/rest\"\nENDPOINT_ZZ: Final[str] = \"q\"\n"
      "class M:\n  BEST = Model(identifier=\"pplx\", mode=\"copilot\")\nA=Model(identifier=\"b\")\nC=Model(identifier=\"b\",mode=\"\")"
    ≡ record {
      api_version = "2.19";
      base_url = "";
      session_cookie_name = "";
      endpoints = ("ask", "/rest") ∷ [];
      model_identifiers = "pplx" ∷ "b" ∷ [];
    }
unfolding parse_upstream trim_text
parse_upstream_tests = refl

-- an overrides file that holds null
null_file_panics :
    merge
      (record {
        api_version = "2.19";
        base_url = "";
        session_cookie_name = "";
        endpoints = [];
        model_identifiers = [];
      })
      (diff_patch spec (record {
        api_version = "2.19";
        base_url = "";
        session_cookie_name = "";
        endpoints = [];
        model_identifiers = [];
      }))
      nil_map
    ≡ none
unfolding merge diff_patch
null_file_panics = refl
