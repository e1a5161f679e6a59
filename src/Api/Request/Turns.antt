-- ===== src/Api/Request/Turns.antt =====
-- The API key, and the turns of a request.
use text.Mathlib.TextPositions.{starts_with-append}
use perplexity_proxy_go.Prelude.{
  ℕ, suc, true, ◌≡◌, ◌≢◌, ◌↔◌, ◌⊎◌, inl, inr, refl, sym, ap, ◌∙◌, List, [], ◌∷◌, String, ◌==◌,
  eq_iff, eq_refl, starts_with, starts_with_iff, drop_prefix, drop_prefix-append, ◌⧺◌, Bool-cases,
  arith, Option, none, some, join,
}
use perplexity_proxy_go.Errors.{ok}
use perplexity_proxy_go.Json.{Value, str, arr, obj, end, field, Values, nil, cons, elems}
use perplexity_proxy_go.Transport.Client.{Host}
use perplexity_proxy_go.Api.Request.{
  Turn, HttpRequest, passed, flatten_content, is_role, read_turns, presented_key, decode_blocks,
  text_parts, is_authorized,
}

bearer-key :
    (auth key : String)
    → starts_with auth "Bearer " ≡ true
    → drop_prefix auth "Bearer " ≡ key
    → auth ≡ "Bearer " ⧺ key
bearer-key auth key h k =
    let (rest, e) = (starts_with_iff auth "Bearer ").0 h in
    let same : rest ≡ key =
      sym (drop_prefix-append "Bearer " rest) ∙ ap (λ a. drop_prefix a "Bearer ") e ∙ k in
    sym e ∙ ap (λ r. "Bearer " ⧺ r) same

-- the two ways to present a key
abbrev pub Presents : String → HttpRequest → Type 0
Presents key r =
    (r.header "x-api-key" ≡ key)
    ⊎ ((r.header "x-api-key" ≡ "") × (r.header "Authorization" ≡ "Bearer " ⧺ key))

presented_key-Presents :
    (key : String) (r : HttpRequest) → presented_key r ≡ key → key ≢ "" → Presents key r
unfolding presented_key
presented_key-Presents key r h ne = elim (Bool-cases (r.header "x-api-key" == "")) [
  | inr given ↦ inl (rw given at h)
  | inl absent ↦ elim (Bool-cases (starts_with (r.header "Authorization") "Bearer ")) [
    | inl bearer ↦ inr ((eq_iff _ _).0 absent, bearer-key _ key bearer (rw (absent, bearer) at h))
    | inr other ↦ absurd (ne (sym (rw (absent, other) at h) ∙ (eq_iff _ _).0 absent))
  ]
]

Presents-presented_key :
    (key : String) (r : HttpRequest) → Presents key r → key ≢ "" → presented_key r ≡ key
unfolding presented_key
Presents-presented_key key r (inl e) ne = ground (arith, eq_iff (r.header "x-api-key") "")
Presents-presented_key key r (inr (absent, auth)) ne =
    rw (absent, auth, starts_with-append "Bearer " key) (drop_prefix-append "Bearer " key)

-- A server with a key lets a request pass exactly when it has the key in x-api-key, or has no
-- x-api-key and the key as a bearer token.
pub is_authorized_iff :
    (key : String) (r : HttpRequest) → key ≢ "" → (is_authorized key r ≡ true) ↔ Presents key r
unfolding is_authorized
is_authorized_iff key r ne = (
  λ h.
      presented_key-Presents key r (ground (arith, eq_iff key "", eq_iff (presented_key r) key)) ne,
  λ p. ground (arith, Presents-presented_key key r p ne, eq_refl key),
)

-- Who speaks, and what: a text, blocks of text, or nothing.
pub data Speaker : Type 0 where
  user : Speaker
  assistant : Speaker

pub data Content : Type 0 where
  plain_text : String → Content
  text_blocks : List String → Content
  no_content : Content

abbrev pub role_name : Speaker → String
role_name user = "user"
role_name assistant = "assistant"

abbrev blocks_json : List String → Values
blocks_json [] = nil
blocks_json (t ∷ ts) =
    cons (obj (field "type" (str "text") (field "text" (str t) end))) (blocks_json ts)

abbrev pub content_json : Content → Option Value
content_json (plain_text s) = some (str s)
content_json (text_blocks ts) = some (arr (blocks_json ts))
content_json no_content = none

-- the text of a content: blocks stand on lines of their own
abbrev pub content_text : Content → String
content_text (plain_text s) = s
content_text (text_blocks ts) = join "\n" ts
content_text no_content = ""

-- the `messages` of a request for what was said
abbrev pub turns_of : List (Speaker × Content) → List Turn
turns_of [] = []
turns_of ((who, said) ∷ rest) =
    record { role = role_name who; content = content_json said } ∷ turns_of rest

-- the lines of the query for what was said
abbrev pub lines_of : List (Speaker × Content) → List String
lines_of [] = []
lines_of ((who, said) ∷ rest) = (role_name who ⧺ ": " ⧺ content_text said) ∷ lines_of rest

abbrev pub typed : List String → List (String × String)
typed [] = []
typed (t ∷ ts) = ("text", t) ∷ typed ts

decode_blocks-blocks_json :
    (ts : List String) → decode_blocks (elems (blocks_json ts)) ≡ ok (typed ts)
unfolding decode_blocks
decode_blocks-blocks_json [] = refl
decode_blocks-blocks_json (t ∷ ts) = rw (decode_blocks-blocks_json ts) refl

text_parts-typed : (ts : List String) → text_parts (typed ts) ≡ inr ts
unfolding text_parts
text_parts-typed [] = refl
text_parts-typed (t ∷ ts) = rw (text_parts-typed ts) refl

pub flatten_content-content_json :
    (host : Host) (c : Content) → flatten_content host (content_json c) ≡ inr (content_text c)
unfolding flatten_content
flatten_content-content_json host (plain_text s) = refl
flatten_content-content_json host (text_blocks ts) =
    rw (decode_blocks-blocks_json ts, text_parts-typed ts) refl
flatten_content-content_json host no_content = refl

pub is_role-role_name : (who : Speaker) → is_role (role_name who) ≡ true
is_role-role_name user = refl
is_role-role_name assistant = refl

-- The messages of a request, each of the user or the assistant, with a text, a list of text blocks or
-- no content, become the lines of the query, in order: the role, a colon, and the text, in which the
-- blocks are joined by newlines.
pub read_turns-turns_of :
    (host : Host) (i : ℕ) (said : List (Speaker × Content))
    → read_turns host i (turns_of said) ≡ passed (lines_of said)
unfolding read_turns
read_turns-turns_of host i [] = refl
read_turns-turns_of host i ((who, content) ∷ rest) =
    rw
      (
        flatten_content-content_json host content,
        is_role-role_name who,
        read_turns-turns_of host (suc i) rest,
      )
      refl
