-- ===== src/Cli/Sync/Drift.antt =====
-- `diffPatch` and `addedModels` of cmd/pplx/commands_spec.go.
pub mod Changed
use Prim.Native.String
use perplexity_proxy_go.Prelude.{
  Char, code, Bool, true, false, not, ◌&&◌, ◌||◌, ◌≡◌, refl, ◌∙◌, List, [], ◌∷◌, ◌++◌, Option, none,
  some, String, ◌⧺◌, ◌==◌, eq_iff, ltb, eqb, if◌then◌else◌, lookup, Bool-cases, inl, inr,
  drop_prefix, drop_prefix-append, arith, sym, ap, map,
}
use perplexity_proxy_go.Spec.Endpoints.{get}
use perplexity_proxy_go.Spec.Decode.{Model, Spec}
use perplexity_proxy_go.Cli.Sync.Upstream.{UpstreamPatch}

-- `s < t`: the order of the bytes of UTF-8 is the order of the code points
unfoldable pub precedes : String → String → Bool
precedes String.[] String.[] = false
precedes String.[] (String.◌∷◌ d t) = true
precedes (String.◌∷◌ c s) String.[] = false
precedes (String.◌∷◌ c s) (String.◌∷◌ d t) =
    ltb (code c) (code d) || (eqb (code c) (code d) && precedes s t)

unfoldable pub place : String → List String → List String
unfolding precedes
place k [] = k ∷ []
place k (j ∷ js) = let later = place k js in if precedes j k then j ∷ later else k ∷ j ∷ js

-- `sort.Strings`, of keys that differ
unfoldable pub sort : List String → List String
unfolding place
sort [] = []
sort (k ∷ ks) = place k (sort ks)

-- `specChange`
pub record SpecChange : Type 0 where
  pub key : String
  pub from : String
  pub to : String

-- the condition of `add`: upstream has a value, and another than the embedded one
abbrev pub differs : String → String → Bool
differs from to = not (to == "") && not (to == from)

-- `add`
abbrev pub add : String → String → String → List SpecChange
add key from to = if differs from to then record { key = key; from = from; to = to } ∷ [] else []

abbrev pub or_empty : Option String → String
or_empty none = ""
or_empty (some v) = v

-- `m[k]` of a map of strings
abbrev pub text_at : String → List (String × String) → String
text_at k m = or_empty (lookup k m)

abbrev pub keys_of : List (String × String) → List String
keys_of [] = []
keys_of ((k, v) ∷ m) = k ∷ keys_of m

unfoldable pub add_endpoints : Spec → UpstreamPatch → List String → List SpecChange
unfolding lookup get
add_endpoints base p [] = []
add_endpoints base p (k ∷ ks) =
    add ("endpoints." ⧺ k) (get base.endpoints k) (text_at k p.endpoints) ++ add_endpoints base p ks

-- `diffPatch`
unfoldable pub diff_patch : Spec → UpstreamPatch → List SpecChange
unfolding add_endpoints sort
diff_patch base p =
    add "api_version" base.api_version p.api_version
    ++ add "base_url" base.base_url p.base_url
    ++ add "session_cookie_name" base.session_cookie_name p.session_cookie_name
    ++ add_endpoints base p (sort (keys_of p.endpoints))

abbrev has_identifier : String → List Model → Bool
has_identifier id [] = false
has_identifier id (m ∷ ms) = m.identifier == id || has_identifier id ms

absent_models : List Model → List String → List String
absent_models have [] = []
absent_models have (id ∷ ids) =
    let rest = absent_models have ids in if has_identifier id have then rest else id ∷ rest

-- `addedModels`
unfoldable pub added_models : Spec → UpstreamPatch → List String
unfolding absent_models
added_models base p = absent_models base.models p.model_identifiers

-- `changed[key]`
unfoldable pub is_changed : String → List SpecChange → Bool
is_changed key [] = false
is_changed key (c ∷ cs) = c.key == key || is_changed key cs
