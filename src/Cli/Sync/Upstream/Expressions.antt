-- ===== src/Cli/Sync/Upstream/Expressions.antt =====
-- The three regular expressions of cmd/pplx/commands_spec.go and the parsers of their lines.
use perplexity_proxy_go.Prelude.{
  Char, code, true, ◌⊎◌, ◌≤◌, ◌≢◌, arith, ◌≡◌, ◌↔◌, sym, some, String, ◌⧺◌,
}
use perplexity_proxy_go.Cli.Sync.Upstream.{
  ◌>>=◌, is_upper, is_word, is_blank, is_plain, expect, final_str, endpoint_id, model_identifier,
}
use perplexity_proxy_go.Cli.Sync.Upstream.Class.{expect_sound, expect-append, bind-some}
use perplexity_proxy_go.Cli.Sync.Upstream.Regex.{IsFinal, final_str_sound, final_str_complete}
use perplexity_proxy_go.Cli.Sync.Upstream.Models.{
  IsModel, model_identifier_sound, model_identifier_complete,
}

-- What `reEndpointID` matches, with its two groups.
abbrev pub IsEndpoint : String → String → String → Type 0
IsEndpoint line name value = (rest : String) × (line ≡ "ENDPOINT_" ⧺ rest) × IsFinal rest name value

endpoint_id_sound :
    (line name value : String) → endpoint_id line ≡ some (name, value) → IsEndpoint line name value
unfolding endpoint_id
endpoint_id_sound line name value h =
    let (rest, e, g) = bind-some (expect "ENDPOINT_" line) final_str (name, value) h in
    (rest, sym (expect_sound "ENDPOINT_" line rest e), final_str_sound rest name value g)

endpoint_id_complete :
    (line name value : String) → IsEndpoint line name value → endpoint_id line ≡ some (name, value)
unfolding endpoint_id ◌>>=◌
endpoint_id_complete line name value (rest, e, m) =
    rw (e, expect-append "ENDPOINT_" rest) (final_str_complete rest name value m)

-- the characters of `[A-Z_]`, `\w`, `\s` and `[^"]`, by their codes
abbrev pub InUpper : Char → Type 0
InUpper c = ((65 ≤ code c) × (code c ≤ 90)) ⊎ (code c ≡ 95)

abbrev pub InWord : Char → Type 0
InWord c = InUpper c ⊎ ((97 ≤ code c) × (code c ≤ 122)) ⊎ ((48 ≤ code c) × (code c ≤ 57))

abbrev pub InBlank : Char → Type 0
InBlank c = (code c ≡ 32) ⊎ (code c ≡ 9) ⊎ (code c ≡ 10) ⊎ (code c ≡ 12) ⊎ (code c ≡ 13)

is_upper_iff : (c : Char) → (is_upper c ≡ true) ↔ InUpper c
is_upper_iff c = (λ h. ground arith, λ h. ground arith)

is_word_iff : (c : Char) → (is_word c ≡ true) ↔ InWord c
is_word_iff c = (λ h. ground arith, λ h. ground arith)

is_blank_iff : (c : Char) → (is_blank c ≡ true) ↔ InBlank c
is_blank_iff c = (λ h. ground arith, λ h. ground arith)

is_plain_iff : (c : Char) → (is_plain c ≡ true) ↔ (code c ≢ 34)
is_plain_iff c = (λ h. ground arith, λ h. ground arith)

-- The parsers of a line give their results exactly where the regular expressions of the source match
-- the line with these as their groups. `reFinalStr`: one or more letters A to Z or underscores, a
-- colon, the type, an equals sign with blanks around it, a text without quotes between quotes, and
-- anything after it. `reEndpointID`: the same after "ENDPOINT_". `reModel`, with its second group:
-- a word with blanks around it, an equals sign and blanks, the call of Model with a non-empty
-- identifier and perhaps a non-empty mode, both without quotes, its closing parenthesis, and anything
-- after it.
-- The classes of characters in them are those of the source: A to Z and the underscore; these with
-- a to z and the digits; blank, tab, newline, form feed and carriage return; all but the double quote.
pub parsers-eq-regexes :
    (line name value : String) (c : Char)
    → ((final_str line ≡ some (name, value)) ↔ IsFinal line name value)
      × ((endpoint_id line ≡ some (name, value)) ↔ IsEndpoint line name value)
      × ((model_identifier line ≡ some value) ↔ IsModel line value)
      × ((is_upper c ≡ true) ↔ InUpper c)
      × ((is_word c ≡ true) ↔ InWord c)
      × ((is_blank c ≡ true) ↔ InBlank c)
      × ((is_plain c ≡ true) ↔ (code c ≢ 34))
parsers-eq-regexes line name value c = (
  (final_str_sound line name value, final_str_complete line name value),
  (endpoint_id_sound line name value, endpoint_id_complete line name value),
  (model_identifier_sound line value, model_identifier_complete line value),
  is_upper_iff c,
  is_word_iff c,
  is_blank_iff c,
  is_plain_iff c,
)
