-- ===== src/Cli/Sync/Overrides.antt =====
-- `writeOverrides` of cmd/pplx/commands_spec.go.
pub mod Merged
pub mod Assigned
pub mod Parts
pub mod Effect
pub mod Kept
use Prim.Native.String
use perplexity_proxy_go.Prelude.{
  Char, Bool, true, false, List, [], ◌∷◌, ◌++◌, Option, none, some, String, Bytes, ◌==◌, ◌⧺◌,
  if◌then◌else◌,
}
use perplexity_proxy_go.Json.{Value, null, str, obj, Fields, end, field, at, as_obj}
use perplexity_proxy_go.Spec.Load.{FileRead, missing, unreadable, content}
use perplexity_proxy_go.Cli.Sync.Upstream.{UpstreamPatch}
use perplexity_proxy_go.Cli.Sync.Drift.{SpecChange, is_changed}

-- `fs[key] = v`
unfoldable pub put : String → Value → Fields → Fields
put key v end = field key v end
put key v (field j w fs) =
    let later = put key v fs in if j == key then field key v fs else field j w later

-- a `map[string]any` that may be nil
pub data GoMap : Type 0 where
  nil_map : GoMap
  entries : Fields → GoMap

-- `json.Unmarshal` into an empty map, its error ignored: null makes the map nil
abbrev unmarshalled : Option Value → GoMap
unmarshalled (some null) = nil_map
unmarshalled (some (obj fs)) = entries fs
unmarshalled _ = entries end

-- the overrides that are there; `parse` is that of encoding/json
abbrev pub existing : (Bytes → Option Value) → FileRead → GoMap
existing parse (content bs) = unmarshalled (parse bs)
existing parse _ = entries end

-- `ov[key] = v`, `none` where the assignment panics
abbrev assign : String → Value → GoMap → Option GoMap
assign key v nil_map = none
assign key v (entries fs) = some (entries (put key v fs))

abbrev assign_if : Bool → String → Value → Option GoMap → Option GoMap
assign_if changed key v none = none
assign_if changed key v (some m) = if changed then assign key v m else some m

abbrev pub or_end : Option Fields → Fields
or_end none = end
or_end (some es) = es

-- `ov["endpoints"].(map[string]any)`, or a new map
abbrev pub old_endpoints : GoMap → Fields
old_endpoints nil_map = end
old_endpoints (entries fs) = or_end (as_obj (at "endpoints" fs))

-- the loop over `p.Endpoints`, whose order does not matter
unfoldable pub merge_endpoints : List (String × String) → List SpecChange → Fields → Fields
unfolding is_changed put
merge_endpoints [] changes es = es
merge_endpoints ((key, path) ∷ rest) changes es =
    let others = merge_endpoints rest changes es in
    if is_changed ("endpoints." ⧺ key) changes then put key (str path) others else others

abbrev with_endpoints : Fields → GoMap → Option GoMap
with_endpoints end m = some m
with_endpoints (field k v es) m = assign "endpoints" (obj (field k v es)) m

abbrev merge_into : UpstreamPatch → List SpecChange → Option GoMap → Option GoMap
merge_into p changes none = none
merge_into p changes (some m) =
    with_endpoints (merge_endpoints p.endpoints changes (old_endpoints m)) m

-- the overrides that `writeOverrides` makes of those that are there, `none` where it panics
unfoldable pub merge : UpstreamPatch → List SpecChange → GoMap → Option GoMap
unfolding merge_endpoints is_changed put
merge p changes ov = merge_into p changes (
    assign_if (is_changed "session_cookie_name" changes) "session_cookie_name"
      (str p.session_cookie_name)
      (assign_if (is_changed "base_url" changes) "base_url" (str p.base_url)
        (assign_if (is_changed "api_version" changes) "api_version" (str p.api_version) (some ov))))
