-- ===== src/Pplx/Frame.antt =====
-- internal/pplx/sse.go: the payload of a `data:` line, and the questions and strings inside a
-- decoded frame.
use perplexity_proxy_go.Prelude.{
  ℕ, List, [], ◌∷◌, Option, none, some, String, Bytes, ◌==◌, eqb, contains, if◌then◌else◌,
}
use perplexity_proxy_go.Json.{
  Value, str, arr, obj, Fields, elems, members, Codec, at, as_arr, str_or_empty, as_map,
}
use perplexity_proxy_go.Transport.Space.{trim_space}

abbrev strip_byte : ℕ → Option Bytes → Option Bytes
strip_byte c none = none
strip_byte c (some []) = none
strip_byte c (some (b ∷ r)) = if eqb b c then some r else none

-- `trimmed[len("data:"):]` of a line that begins with "data:"
abbrev after_data : Bytes → Option Bytes
after_data line =
    strip_byte b':'
      (strip_byte b'a' (strip_byte b't' (strip_byte b'a' (strip_byte b'd' (some line)))))

abbrev decode_payload : Codec → Bytes → Option Fields
decode_payload codec [] = none
decode_payload codec (b ∷ r) = as_map (codec.parse (b ∷ r))

abbrev payload_of : Option Bytes → Option Bytes
payload_of none = none
payload_of (some r) = some (trim_space r)

abbrev decode_line : Codec → Option Bytes → Option Fields
decode_line codec none = none
decode_line codec (some payload) = decode_payload codec payload

-- `sseData`
unfoldable pub sse_data : Codec → Bytes → Option Fields
unfolding trim_space
sse_data codec line = decode_line codec (payload_of (after_data (trim_space line)))

-- `stringOr` over the strings of a list
unfoldable pub strings_of : List Value → List String
strings_of [] = []
strings_of (str s ∷ vs) = s ∷ strings_of vs
strings_of (_ ∷ vs) = strings_of vs

unfoldable non_empty : List Value → List String
non_empty [] = []
non_empty (v ∷ vs) =
    let rest = non_empty vs in let s = str_or_empty (some v) in if s == "" then rest else s ∷ rest

unfoldable questions_in : List Value → List String
questions_in [] = []
questions_in (str s ∷ vs) = let rest = questions_in vs in if contains s "?" then s ∷ rest else rest
questions_in (_ ∷ vs) = questions_in vs

-- `extractClarifyingQuestions`
unfoldable pub extract_clarifying_questions : Option Value → List String
unfolding non_empty questions_in
extract_clarifying_questions (some (obj c)) = elim (as_arr (at "questions" c)) [
  | some raw ↦ non_empty raw
  | none ↦ elim (as_arr (at "clarifying_questions" c)) [
    | some raw ↦ non_empty raw
    | none ↦ questions_in (members c)
  ]
]
extract_clarifying_questions (some (arr vs)) = non_empty (elems vs)
extract_clarifying_questions (some (str s)) = if s == "" then [] else s ∷ []
extract_clarifying_questions _ = []
