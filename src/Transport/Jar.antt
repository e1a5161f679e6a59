-- ===== src/Transport/Jar.antt =====
-- internal/transport/jar.go: the cookie jar. Its mutex serialises the methods, so each is one step.
-- The map's iteration order is the order of the association list.
pub mod Chunks
pub mod Sessions
use mathlib.Core.List.{filter_map}
use perplexity_proxy_go.Prelude.{
  ℕ, Bool, false, ◌&&◌, ◌≡◌, refl, List, [], ◌∷◌, Option, none, some, String, ◌==◌, starts_with,
  drop_prefix, join, ◌⧺◌, map, ltb, lookup, insert, without, ℤ, is_neg, is_digits, atoi,
  if◌then◌else◌,
}

pub record Cookie : Type 0 where
  pub name : String
  pub value : String
  pub max_age : ℤ

pub record Jar : Type 0 where
  pub host : String
  pub cookies : List (String × String)

abbrev pub new_jar : String → Jar
new_jar host = record { host = host; cookies = [] }

abbrev is_host : String → Option String → Bool
is_host host none = false
is_host host (some h) = h == host

-- `forHost`; a URL is its `Hostname()`, and nil is `none`
unfoldable pub for_host : Jar → Option String → Bool
for_host j u = is_host j.host u

-- one round of the loop of `SetCookies`
unfoldable pub store_cookie : List (String × String) → Cookie → List (String × String)
store_cookie m c = if is_neg c.max_age then without c.name m else insert c.name c.value m

unfoldable pub store_all : List (String × String) → List Cookie → List (String × String)
unfolding store_cookie
store_all m [] = m
store_all m (c ∷ cs) = store_all (store_cookie m c) cs

unfoldable pub set_cookies : Jar → Option String → List Cookie → Jar
unfolding for_host store_all
set_cookies j u cs = if for_host j u then record j { cookies = store_all j.cookies cs } else j

-- `Cookies`: the names and values that a request to `u` carries
unfoldable pub cookies_for : Jar → Option String → List (String × String)
unfolding for_host
cookies_for j u = if for_host j u then j.cookies else []

pub record Chunk : Type 0 where
  pub idx : ℕ
  pub val : String

-- one round of the loop of `get`
unfoldable pub chunk_of : String → String × String → Option Chunk
unfolding is_digits atoi
chunk_of prefix (k, v) =
    if starts_with k prefix && is_digits (drop_prefix k prefix)
    then some (record { idx = atoi (drop_prefix k prefix); val = v })
    else none

insert_chunk : Chunk → List Chunk → List Chunk
insert_chunk c [] = c ∷ []
insert_chunk c (d ∷ ds) =
    let later = insert_chunk c ds in if ltb d.idx c.idx then d ∷ later else c ∷ d ∷ ds

-- `sort.Slice` by index
unfoldable pub sort : List Chunk → List Chunk
unfolding insert_chunk
sort [] = []
sort (c ∷ cs) = insert_chunk c (sort cs)

unfoldable pub chunks_of : String → List (String × String) → List Chunk
unfolding chunk_of
chunks_of name m = filter_map (chunk_of (name ⧺ ".")) m

abbrev whole_or : Option String → String → String
whole_or (some v) w = v
whole_or none w = w

-- `get`; an empty list of chunks joins to ""
unfoldable pub get : Jar → String → String
unfolding sort chunks_of
get j name =
    whole_or (lookup name j.cookies) (join "" (map (λ c. c.val) (sort (chunks_of name j.cookies))))
