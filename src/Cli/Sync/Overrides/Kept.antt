-- ===== src/Cli/Sync/Overrides/Kept.antt =====
-- What `writeOverrides` of cmd/pplx/commands_spec.go keeps of the overrides that are there.
use perplexity_proxy_go.Prelude.{
  false, ◌≡◌, refl, ◌∙◌, List, [], ◌∷◌, Option, none, some, String, ◌⧺◌, ◌==◌, eq_iff, lookup,
  Bool-cases, inl, inr, ap,
}
use perplexity_proxy_go.Json.{Value, Fields, end, field, at, as_obj}
use perplexity_proxy_go.Cli.Sync.Upstream.{UpstreamPatch}
use perplexity_proxy_go.Cli.Sync.Drift.{SpecChange, is_changed}
use perplexity_proxy_go.Cli.Sync.Overrides.{entries, or_end, old_endpoints, merge_endpoints, merge}
use perplexity_proxy_go.Cli.Sync.Overrides.Merged.{at-put}
use perplexity_proxy_go.Cli.Sync.Overrides.Parts.{merge_endpoints_end}
use perplexity_proxy_go.Cli.Sync.Overrides.Assigned.{
  put_unless_empty, assigned, merged, merge-entries, at-put_unless_empty, upstream_text, replaced,
  at-assigned,
}

replaced_same : (o : Option String) (v : Option Value) → replaced false o v ≡ v
replaced_same none v = refl
replaced_same (some t) v = refl

at-merge_endpoints :
    (m : List (String × String)) (cs : List SpecChange) (es : Fields) (k : String)
    → at k (merge_endpoints m cs es)
      ≡ replaced (is_changed ("endpoints." ⧺ k) cs) (lookup k m) (at k es)
unfolding merge_endpoints lookup
at-merge_endpoints [] cs es k = refl
at-merge_endpoints ((j, path) ∷ m) cs es k =
    let later = at-merge_endpoints m cs es k in
    elim (Bool-cases (j == k)) [
      | inl same ↦
          rw (same, (eq_iff j k).0 same)
            (elim (Bool-cases (is_changed ("endpoints." ⧺ k) cs)) [
              | inl c ↦ rw (c, at-put, (eq_iff k k).1 refl) refl
              | inr c ↦ rw c (later ∙ rw c (replaced_same _ _))
            ])
      | inr other ↦ rw other (elim (Bool-cases (is_changed ("endpoints." ⧺ j) cs)) [
        | inl c ↦ rw (c, at-put, other) later
        | inr c ↦ rw c later
      ])
    ]

endpoints_merged :
    (new fs : Fields)
    → (new ≡ end → or_end (as_obj (at "endpoints" fs)) ≡ end)
    → old_endpoints (entries (put_unless_empty new fs)) ≡ new
endpoints_merged end fs h = h refl
endpoints_merged (field k v es) fs h = rw at-put refl

-- The new overrides at each key: a change of upstream where it has one, else the value that is there.
abbrev pub IsMerged : UpstreamPatch → List SpecChange → Fields → Fields → Type 0
IsMerged p cs fs gs =
    ((k : String)
      → ("endpoints" == k) ≡ false
      → at k gs ≡ replaced (is_changed k cs) (upstream_text p k) (at k fs))
    × ((k : String)
        → at k (old_endpoints (entries gs))
          ≡ replaced (is_changed ("endpoints." ⧺ k) cs) (lookup k p.endpoints)
              (at k (old_endpoints (entries fs))))

old_endpoints-assigned :
    (p : UpstreamPatch) (cs : List SpecChange) (fs : Fields)
    → old_endpoints (entries (assigned p cs fs)) ≡ old_endpoints (entries fs)
old_endpoints-assigned p cs fs = ap (λ v. or_end (as_obj v)) (at-assigned p cs fs "endpoints")

pub merge-IsMerged :
    (p : UpstreamPatch) (cs : List SpecChange) (fs : Fields)
    → (gs : Fields) × (merge p cs (entries fs) ≡ some (entries gs)) × IsMerged p cs fs gs
merge-IsMerged p cs fs =
    let same = old_endpoints-assigned p cs fs in
    let es = old_endpoints (entries fs) in
    (
      merged p cs fs,
      merge-entries p cs fs,
      (
        λ k other. at-put_unless_empty k _ _ other ∙ at-assigned p cs fs k,
        λ k.
            ap (at k) (endpoints_merged _ (assigned p cs fs) (merge_endpoints_end p.endpoints cs _))
            ∙ ap (λ old. at k (merge_endpoints p.endpoints cs old)) same
            ∙ at-merge_endpoints p.endpoints cs es k,
      ),
    )
