-- ===== src/Cli/Sync/Overrides/Merged.antt =====
-- What the overrides say after `writeOverrides` of cmd/pplx/commands_spec.go.
use perplexity_proxy_go.Prelude.{
  Bool, false, ◌≡◌, refl, ◌∙◌, List, [], ◌∷◌, All, Option, none, some, String, ◌⧺◌, ◌==◌, eq_iff,
  if◌then◌else◌, lookup, insert, lookup-insert, Bool-cases, inl, inr, arith,
}
use perplexity_proxy_go.Errors.{Result, ok, err, ◌>>=◌}
use perplexity_proxy_go.Json.{Value, str, Fields, end, field, at, to_str_pointer}
use perplexity_proxy_go.Spec.Load.{decode_paths}
use perplexity_proxy_go.Spec.Load.Precedence.{HasDistinctKeys, said}
use perplexity_proxy_go.Cli.Sync.Drift.{SpecChange, is_changed}
use perplexity_proxy_go.Cli.Sync.Overrides.{put, merge_endpoints}

pub at-put :
    (k j : String) (v : Value) (fs : Fields)
    → at k (put j v fs) ≡ (if j == k then some v else at k fs)
unfolding put
at-put k j v end = refl
at-put k j v (field i w fs) = ground (at-put k j v fs, eq_iff i j, eq_iff i k, eq_iff j k, arith)

-- a success of a chain has a success at its head
pub bind-ok {ℓ κ} :
    {A : Type ℓ} {B : Type κ} (m : Result A) (f : A → Result B) (b : B)
    → (m >>= f) ≡ ok b
    → (a : A) × (m ≡ ok a) × (f a ≡ ok b)
bind-ok (ok a) f b h = (a, refl, h)
bind-ok (err e) f b h = cc

decode_paths-put :
    (k path : String) (es : Fields) (ps : List (String × Option String))
    → decode_paths es ≡ ok ps
    → decode_paths (put k (str path) es) ≡ ok (insert k (some path) ps)
unfolding decode_paths put insert
decode_paths-put k path end ps h = let none_left : [] ≡ ps = cc in rw (← none_left) refl
decode_paths-put k path (field j w es) ps h =
    let (q, e, g) = bind-ok (to_str_pointer (some w)) _ ps h in
    let (qs, e', g') = bind-ok (decode_paths es) _ ps g in
    let whole : (j, q) ∷ qs ≡ ps = cc in
    rw (← whole) (elim (Bool-cases (j == k)) [
      | inl same ↦ rw (same, e') refl
      | inr differ ↦ rw (differ, e, decode_paths-put k path es qs e') refl
    ])

All-insert :
    (k j : String) (v : Option String) (ps : List (String × Option String))
    → All (λ p. (p.0 == k) ≡ false) ps
    → (j == k) ≡ false
    → All (λ p. (p.0 == k) ≡ false) (insert j v ps)
unfolding insert
All-insert k j v [] h n = (n, tt)
All-insert k j v ((i, w) ∷ ps) (p, h) n = elim (Bool-cases (i == j)) [
  | inl same ↦ rw same (n, h)
  | inr differ ↦ rw differ (p, All-insert k j v ps h n)
]

HasDistinctKeys-insert :
    (k : String) (v : Option String) (ps : List (String × Option String))
    → HasDistinctKeys ps
    → HasDistinctKeys (insert k v ps)
unfolding insert
HasDistinctKeys-insert k v [] h = (tt, tt)
HasDistinctKeys-insert k v ((i, w) ∷ ps) (p, h) = elim (Bool-cases (i == k)) [
  | inl same ↦ rw same (rw (← (eq_iff i k).0 same) p, h)
  | inr differ ↦ rw differ (
    All-insert i k v ps p (ground (eq_iff i k, eq_iff k i, arith)),
    HasDistinctKeys-insert k v ps h,
  )
]

-- upstream's path where it has one and it is a change, else the old one
abbrev pub chosen : Bool → Option String → Option String → Option String
chosen changed none old = old
chosen changed (some path) old = if changed then some path else old

chosen-false : (o old : Option String) → chosen false o old ≡ old
chosen-false none old = refl
chosen-false (some path) old = refl

-- What the merge of the endpoints makes of the paths that are there.
pub merge_endpoints-paths :
    (m : List (String × String)) (changes : List SpecChange) (es : Fields)
    (ps : List (String × Option String))
    → decode_paths es ≡ ok ps
    → HasDistinctKeys ps
    → (qs : List (String × Option String)) × (decode_paths (merge_endpoints m changes es) ≡ ok qs)
      × HasDistinctKeys qs
      × ((k : String)
          → said (lookup k qs)
            ≡ chosen (is_changed ("endpoints." ⧺ k) changes) (lookup k m) (said (lookup k ps)))
unfolding merge_endpoints lookup
merge_endpoints-paths [] changes es ps e h = (ps, e, h, λ k. refl)
merge_endpoints-paths ((j, path) ∷ m) changes es ps e h =
    let (qs, e', h', g) = merge_endpoints-paths m changes es ps e h in
    elim (Bool-cases (is_changed ("endpoints." ⧺ j) changes)) [
      | inl changed ↦ (
        insert j (some path) qs,
        rw changed (decode_paths-put j path _ qs e'),
        HasDistinctKeys-insert j (some path) qs h',
        λ k. elim (Bool-cases (j == k)) [
          | inl at_key ↦ rw (lookup-insert, at_key, ← (eq_iff j k).0 at_key, changed) refl
          | inr other ↦ rw (lookup-insert, other) (g k)
        ],
      )
      | inr same ↦ (
        qs,
        rw same e',
        h',
        λ k. g k ∙ elim (Bool-cases (j == k)) [
          | inl at_key ↦ rw (at_key, ← (eq_iff j k).0 at_key, same) (chosen-false _ _)
          | inr other ↦ rw other refl
        ],
      )
    ]
