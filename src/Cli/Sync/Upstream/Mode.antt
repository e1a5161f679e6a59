-- ===== src/Cli/Sync/Upstream/Mode.antt =====
-- The end of a call of Model in `reModel` of cmd/pplx/commands_spec.go, with a mode or without.
use text.Mathlib.TextLemmas.{cons-append}
use perplexity_proxy_go.Prelude.{
  Char, Bool, true, false, ◌≡◌, ◌⊎◌, refl, sym, ap, ◌∙◌, none, some, String, ◌⧺◌, ◌==◌,
  Option-cases, Bool-cases, code, eqb, starts_with, starts_with_iff, inl, inr,
}
use perplexity_proxy_go.Cli.Sync.Upstream.Class.{
  all_of, stops, stops-append, span-append, all_of-span, span_all, expect_sound, expect-append,
  bind-some,
}
use perplexity_proxy_go.Cli.Sync.Upstream.Regex.{some_of-append, some_of-inverse}
use perplexity_proxy_go.Cli.Sync.Upstream.{
  ◌>>=◌, is_blank, is_plain, span, expect, some_of, after_mode, mode_or_nothing,
}

abbrev mode_group : (b mode rest : String) → String
mode_group b mode rest = "," ⧺ (b ⧺ ("mode=\"" ⧺ (mode ⧺ ("\"" ⧺ rest))))

-- the end of the call of `Model`, with a mode or without
abbrev pub IsClosed : String → Type 0
IsClosed s =
    (tail : String) × ((s ≡ ")" ⧺ tail)
      ⊎ ((b mode : String) × (all_of is_blank b ≡ true)
          × ((mode == "") ≡ false)
          × (all_of is_plain mode ≡ true)
          × (s ≡ mode_group b mode (")" ⧺ tail))))

is_comma : Char → Bool
is_comma c = eqb (code c) 44

no_comma : (t : String) → starts_with (")" ⧺ t) "," ≡ false
unfolding is_comma
no_comma t = elim (Bool-cases (starts_with (")" ⧺ t) ",")) [
  | inl found ↦
      let (u, e) = (starts_with_iff (")" ⧺ t) ",").0 found in
      let stays : stops is_comma (")" ⧺ t) ≡ true = stops-append is_comma ")" t refl refl in
      let starts : stops is_comma ("," ⧺ u) ≡ false = rw cons-append refl in
      let same = ap (stops is_comma) e in cc
  | inr missing ↦ missing
]

mode-absent : (tail : String) → after_mode (")" ⧺ tail) ≡ none
unfolding after_mode ◌>>=◌
mode-absent tail = rw no_comma refl

mode-present :
    (b mode rest : String)
    → all_of is_blank b ≡ true
    → (mode == "") ≡ false
    → all_of is_plain mode ≡ true
    → after_mode (mode_group b mode rest) ≡ some rest
unfolding after_mode ◌>>=◌
mode-present b mode rest hb n hm =
    let s2 = mode ⧺ ("\"" ⧺ rest) in
    rw
      (
        expect-append "," (b ⧺ ("mode=\"" ⧺ s2)),
        span_all is_blank b ("mode=\"" ⧺ s2) hb (stops-append is_blank "mode=\"" s2 refl refl),
        expect-append "mode=\"" s2,
        some_of-append is_plain mode ("\"" ⧺ rest) n hm (stops-append is_plain "\"" rest refl refl),
        expect-append "\"" rest,
      )
      refl

mode_or_nothing-absent : (s : String) → after_mode s ≡ none → mode_or_nothing s ≡ s
unfolding mode_or_nothing
mode_or_nothing-absent s h = rw h refl

mode_or_nothing-present : (s rest : String) → after_mode s ≡ some rest → mode_or_nothing s ≡ rest
unfolding mode_or_nothing
mode_or_nothing-present s rest h = rw h refl

pub IsClosed-complete :
    (s : String) → IsClosed s → (r : String) × (expect ")" (mode_or_nothing s) ≡ some r)
IsClosed-complete s (tail, inl e) = (
  tail,
  ap (expect ")") (ap mode_or_nothing e ∙ mode_or_nothing-absent _ (mode-absent tail))
      ∙ expect-append ")" tail,
)
IsClosed-complete s (tail, inr (b, mode, hb, n, hm, e)) = (
  tail,
  ap (expect ")") (
        ap mode_or_nothing e
        ∙ mode_or_nothing-present _ _ (mode-present b mode (")" ⧺ tail) hb n hm))
      ∙ expect-append ")" tail,
)

mode_pieces :
    (b mode rest : String) {s s1 s2 s3 t1 : String}
    → "," ⧺ s1 ≡ s
    → b ⧺ t1 ≡ s1
    → "mode=\"" ⧺ s2 ≡ t1
    → mode ⧺ s3 ≡ s2
    → "\"" ⧺ rest ≡ s3
    → s ≡ mode_group b mode rest
mode_pieces b mode rest e1 e2 e3 e4 e5 = rw (← e1, ← e2, ← e3, ← e4, ← e5) refl

after_mode-inverse :
    (s rest : String)
    → after_mode s ≡ some rest
    → (b mode : String) × (all_of is_blank b ≡ true)
      × ((mode == "") ≡ false)
      × (all_of is_plain mode ≡ true)
      × (s ≡ mode_group b mode rest)
unfolding after_mode
after_mode-inverse s rest present =
    let (s1, e1, g1) = bind-some (expect "," s) _ rest present in
    let (s2, e2, g2) = bind-some (expect "mode=\"" (span is_blank s1).1) _ rest g1 in
    let ((mode, s3), e3, g3) = bind-some (some_of is_plain s2) _ rest g2 in
    let (n, hm, e) = some_of-inverse is_plain s2 mode s3 e3 in
    (
      (span is_blank s1).0,
      mode,
      all_of-span is_blank s1,
      n,
      hm,
      mode_pieces _ mode rest (expect_sound "," s s1 e1) (span-append is_blank s1)
          (expect_sound "mode=\"" _ s2 e2) e (expect_sound "\"" _ rest g3),
    )

pub IsClosed-sound : (s r : String) → expect ")" (mode_or_nothing s) ≡ some r → IsClosed s
IsClosed-sound s r h = elim (Option-cases (after_mode s)) [
  | inl absent ↦ (
    r,
    inl (sym (expect_sound ")" s r (ap (expect ")") (sym (mode_or_nothing-absent s absent)) ∙ h))),
  )
  | inr (rest, present) ↦
      let (b, mode, hb, n, hm, e) = after_mode-inverse s rest present in
      let last : expect ")" rest ≡ some r =
        ap (expect ")") (sym (mode_or_nothing-present s rest present)) ∙ h in
      (r, inr (b, mode, hb, n, hm, e ∙ ap (mode_group b mode) (sym (expect_sound ")" rest r last))))
]
