-- ===== src/Cli/Sync/Overrides/Assigned.antt =====
-- The overrides that `writeOverrides` of cmd/pplx/commands_spec.go writes, key by key.
use perplexity_proxy_go.Prelude.{
  Bool, true, false, ◌&&◌, ◌≡◌, refl, List, Option, none, some, String, ◌==◌, if◌then◌else◌,
  Bool-cases, eq_iff, inl, inr, arith,
}
use perplexity_proxy_go.Json.{Value, str, obj, Fields, end, field, at}
use perplexity_proxy_go.Cli.Sync.Upstream.{UpstreamPatch}
use perplexity_proxy_go.Cli.Sync.Drift.{SpecChange, is_changed}
use perplexity_proxy_go.Cli.Sync.Overrides.{
  put, entries, assign_if, old_endpoints, merge_endpoints, with_endpoints, merge,
}
use perplexity_proxy_go.Cli.Sync.Overrides.Merged.{at-put}

abbrev put_if : Bool → String → Value → Fields → Fields
put_if changed key v fs = if changed then put key v fs else fs

assign_if-entries :
    (c : Bool) (k : String) (v : Value) (fs : Fields)
    → assign_if c k v (some (entries fs)) ≡ some (entries (put_if c k v fs))
assign_if-entries true k v fs = refl
assign_if-entries false k v fs = refl

at-put_if :
    (c : Bool) (k j : String) (v : Value) (fs : Fields)
    → at k (put_if c j v fs) ≡ (if c && j == k then some v else at k fs)
at-put_if true k j v fs = at-put k j v fs
at-put_if false k j v fs = refl

abbrev pub put_unless_empty : Fields → Fields → Fields
put_unless_empty end fs = fs
put_unless_empty (field k v es) fs = put "endpoints" (obj (field k v es)) fs

with_endpoints-entries :
    (es fs : Fields) → with_endpoints es (entries fs) ≡ some (entries (put_unless_empty es fs))
with_endpoints-entries end fs = refl
with_endpoints-entries (field k v es) fs = refl

-- the three assignments to `ov`
abbrev pub assigned : UpstreamPatch → List SpecChange → Fields → Fields
assigned p cs fs =
    put_if (is_changed "session_cookie_name" cs) "session_cookie_name" (str p.session_cookie_name) (
      put_if (is_changed "base_url" cs) "base_url" (str p.base_url)
        (put_if (is_changed "api_version" cs) "api_version" (str p.api_version) fs))

abbrev pub merged : UpstreamPatch → List SpecChange → Fields → Fields
merged p cs fs =
    put_unless_empty (merge_endpoints p.endpoints cs (old_endpoints (entries (assigned p cs fs))))
      (assigned p cs fs)

pub merge-entries :
    (p : UpstreamPatch) (cs : List SpecChange) (fs : Fields)
    → merge p cs (entries fs) ≡ some (entries (merged p cs fs))
unfolding merge
merge-entries p cs fs =
    rw (assign_if-entries, assign_if-entries, assign_if-entries) (with_endpoints-entries _ _)

pub at-put_unless_empty :
    (k : String) (es fs : Fields)
    → ("endpoints" == k) ≡ false
    → at k (put_unless_empty es fs) ≡ at k fs
at-put_unless_empty k end fs h = refl
at-put_unless_empty k (field j v es) fs h = rw (at-put, h) refl

-- what upstream has under a key of the overrides, their endpoints apart
abbrev pub upstream_text : UpstreamPatch → String → Option String
upstream_text p k =
    if "api_version" == k
    then some p.api_version
    else if "base_url" == k
    then some p.base_url
    else if "session_cookie_name" == k
    then some p.session_cookie_name
    else none

-- upstream's text where it is a change, else the value that is there
abbrev pub replaced : Bool → Option String → Option Value → Option Value
replaced changed none old = old
replaced changed (some new) old = if changed then some (str new) else old

pub at-assigned :
    (p : UpstreamPatch) (cs : List SpecChange) (fs : Fields) (k : String)
    → at k (assigned p cs fs) ≡ replaced (is_changed k cs) (upstream_text p k) (at k fs)
at-assigned p cs fs k =
    rw (at-put_if, at-put_if, at-put_if)
      (elim (Bool-cases ("api_version" == k)) [
        | inl a ↦ rw (← (eq_iff "api_version" k).0 a) (ground arith)
        | inr a ↦ elim (Bool-cases ("base_url" == k)) [
          | inl b ↦ rw (← (eq_iff "base_url" k).0 b) (ground arith)
          | inr b ↦ elim (Bool-cases ("session_cookie_name" == k)) [
            | inl c ↦ rw (← (eq_iff "session_cookie_name" k).0 c) (ground arith)
            | inr c ↦ rw (a, b, c) (ground arith)
          ]
        ]
      ])
