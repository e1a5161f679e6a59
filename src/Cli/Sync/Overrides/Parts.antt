-- ===== src/Cli/Sync/Overrides/Parts.antt =====
-- What the decoder of overrides reads after `writeOverrides` of cmd/pplx/commands_spec.go.
use perplexity_proxy_go.Prelude.{
  Bool, true, false, ◌≡◌, refl, ◌∙◌, List, [], ◌∷◌, Option, none, some, String, ◌⧺◌, ◌==◌,
  if◌then◌else◌, Bool-cases, inl, inr, sym, ap,
}
use perplexity_proxy_go.Errors.{ok}
use perplexity_proxy_go.Json.{
  Value, null, str, obj, Fields, end, field, at, as_obj, to_str_pointer, to_struct,
}
use perplexity_proxy_go.Spec.Load.{Overrides, decode_paths, decode_overrides}
use perplexity_proxy_go.Cli.Sync.Upstream.{UpstreamPatch}
use perplexity_proxy_go.Cli.Sync.Drift.{SpecChange, is_changed}
use perplexity_proxy_go.Cli.Sync.Overrides.{put, entries, or_end, old_endpoints, merge_endpoints}
use perplexity_proxy_go.Cli.Sync.Overrides.Merged.{at-put, bind-ok}
use perplexity_proxy_go.Cli.Sync.Overrides.Assigned.{
  put_unless_empty, assigned, merged, at-put_unless_empty, at-assigned,
}

or_end_of_to_struct :
    (v : Option Value) (es : Fields) → to_struct v ≡ ok es → or_end (as_obj v) ≡ es
or_end_of_to_struct none es h = cc
or_end_of_to_struct (some null) es h = cc
or_end_of_to_struct (some (obj fs)) es h = cc
or_end_of_to_struct (some _) es h = cc

put-ne_end : (k : String) (v : Value) (fs : Fields) → put k v fs ≡ end → ⊥
unfolding put
put-ne_end k v end h = cc
put-ne_end k v (field j w fs) h = elim (Bool-cases (j == k)) [
  | inl same ↦ let e : field k v fs ≡ end = rw same at h in cc
  | inr differ ↦ let e : field j w (put k v fs) ≡ end = rw differ at h in cc
]

pub merge_endpoints_end :
    (m : List (String × String)) (cs : List SpecChange) (es : Fields)
    → merge_endpoints m cs es ≡ end
    → es ≡ end
unfolding merge_endpoints
merge_endpoints_end [] cs es h = h
merge_endpoints_end ((k, path) ∷ m) cs es h = elim (Bool-cases (is_changed ("endpoints." ⧺ k) cs)) [
  | inl c ↦ absurd (put-ne_end k (str path) (merge_endpoints m cs es) (rw c at h))
  | inr c ↦ merge_endpoints_end m cs es (rw c at h)
]

to_struct-put_unless_empty :
    (new fs es : Fields)
    → to_struct (at "endpoints" fs) ≡ ok es
    → (new ≡ end → es ≡ end)
    → to_struct (at "endpoints" (put_unless_empty new fs)) ≡ ok new
to_struct-put_unless_empty end fs es h k = h ∙ ap ok (k refl)
to_struct-put_unless_empty (field j v new) fs es h k = rw at-put refl

to_str_pointer-if :
    (c : Bool) (new : String) (v : Option Value) (old : Option String)
    → to_str_pointer v ≡ ok old
    → to_str_pointer (if c then some (str new) else v) ≡ ok (if c then some new else old)
to_str_pointer-if true new v old h = refl
to_str_pointer-if false new v old h = h

-- the overrides that the decoder reads, of their parts
decode_overrides-parts :
    (fs es : Fields) (b a c : Option String) (ps : List (String × Option String))
    → to_str_pointer (at "base_url" fs) ≡ ok b
    → to_str_pointer (at "api_version" fs) ≡ ok a
    → to_str_pointer (at "session_cookie_name" fs) ≡ ok c
    → to_struct (at "endpoints" fs) ≡ ok es
    → decode_paths es ≡ ok ps
    → decode_overrides (some (obj fs))
      ≡ ok (record { base_url = b; api_version = a; session_cookie_name = c; endpoints = ps })
unfolding decode_overrides
decode_overrides-parts fs es b a c ps hb ha hc he hp = rw (hb, ha, hc, he, hp) refl

abbrev merged_es : UpstreamPatch → List SpecChange → Fields → Fields
merged_es p cs fs = merge_endpoints p.endpoints cs (old_endpoints (entries (assigned p cs fs)))

-- what the decoder reads in the merged overrides
pub decode_overrides-merged :
    (p : UpstreamPatch) (cs : List SpecChange) (fs es : Fields) (b a c : Option String)
    (ps qs : List (String × Option String))
    → to_str_pointer (at "base_url" fs) ≡ ok b
    → to_str_pointer (at "api_version" fs) ≡ ok a
    → to_str_pointer (at "session_cookie_name" fs) ≡ ok c
    → to_struct (at "endpoints" fs) ≡ ok es
    → decode_paths (merge_endpoints p.endpoints cs es) ≡ ok qs
    → decode_overrides (some (obj (merged p cs fs)))
      ≡ ok (record {
        base_url = if is_changed "base_url" cs then some p.base_url else b;
        api_version = if is_changed "api_version" cs then some p.api_version else a;
        session_cookie_name =
            if is_changed "session_cookie_name" cs then some p.session_cookie_name else c;
        endpoints = qs;
      })
decode_overrides-merged p cs fs es b a c ps qs hb ha hc he hq =
    let old : old_endpoints (entries (assigned p cs fs)) ≡ es =
      or_end_of_to_struct (at "endpoints" (assigned p cs fs)) es
        (rw (at-assigned p cs fs "endpoints") he) in
    decode_overrides-parts (merged p cs fs) (merged_es p cs fs) _ _ _ qs
      (rw (at-put_unless_empty "base_url" _ _ refl, at-assigned p cs fs "base_url")
        (to_str_pointer-if _ _ _ b hb))
      (rw (at-put_unless_empty "api_version" _ _ refl, at-assigned p cs fs "api_version")
        (to_str_pointer-if _ _ _ a ha))
      (rw
        (
          at-put_unless_empty "session_cookie_name" _ _ refl,
          at-assigned p cs fs "session_cookie_name",
        )
        (to_str_pointer-if _ _ _ c hc))
      (to_struct-put_unless_empty _ _ es (rw (at-assigned p cs fs "endpoints") he)
        (λ e. sym old ∙ merge_endpoints_end p.endpoints cs _ e))
      (rw old hq)

ok_injective : (a b : Overrides) → ok a ≡ ok b → a ≡ b
ok_injective a b h = cc

-- where the decoder finds the parts of the overrides
pub decode_overrides-inverse :
    (fs : Fields) (ov : Overrides)
    → decode_overrides (some (obj fs)) ≡ ok ov
    → (es : Fields) × (to_str_pointer (at "base_url" fs) ≡ ok ov.base_url)
      × (to_str_pointer (at "api_version" fs) ≡ ok ov.api_version)
      × (to_str_pointer (at "session_cookie_name" fs) ≡ ok ov.session_cookie_name)
      × (to_struct (at "endpoints" fs) ≡ ok es)
      × (decode_paths es ≡ ok ov.endpoints)
unfolding decode_overrides
decode_overrides-inverse fs ov h =
    let (b, hb, h1) = bind-ok (to_str_pointer (at "base_url" fs)) _ ov h in
    let (a, ha, h2) = bind-ok (to_str_pointer (at "api_version" fs)) _ ov h1 in
    let (c, hc, h3) = bind-ok (to_str_pointer (at "session_cookie_name" fs)) _ ov h2 in
    let (es, he, h4) = bind-ok (to_struct (at "endpoints" fs)) _ ov h3 in
    let (ps, hp, h5) = bind-ok (decode_paths es) _ ov h4 in
    let whole = ok_injective _ ov h5 in
    (
      es,
      hb ∙ ap (λ o. ok o.base_url) whole,
      ha ∙ ap (λ o. ok o.api_version) whole,
      hc ∙ ap (λ o. ok o.session_cookie_name) whole,
      he,
      hp ∙ ap (λ o. ok o.endpoints) whole,
    )
