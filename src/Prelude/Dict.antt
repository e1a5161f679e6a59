-- ===== src/Prelude/Dict.antt =====
-- A Go map with string keys, as an association list.
use Prim.Native.String.{String}
use mathlib.Core.Path.{◌≡◌, refl}
use mathlib.Core.Option.{Option, none, some}
use mathlib.Core.List.{List, [], ◌∷◌}
use native.Mathlib.Omega.{arith}
use text.Mathlib.Text.{◌==◌}
use text.Mathlib.TextEquality.{eq_iff}
use perplexity_proxy_go.Prelude.Tests.{if◌then◌else◌}

module _ {ℓ} {A : Type ℓ} where
  -- `delete(dict, key)`
  unfoldable pub without : String → List (String × A) → List (String × A)
  without key [] = []
  without key ((other, a) ∷ rest) =
      let kept = without key rest in if other == key then kept else (other, a) ∷ kept

  -- `a, ok := dict[key]`
  unfoldable pub lookup : String → List (String × A) → Option A
  lookup key [] = none
  lookup key ((other, a) ∷ rest) = if other == key then some a else lookup key rest

  pub lookup-without :
      (gone key : String) (dict : List (String × A))
      → lookup key (without gone dict) ≡ (if gone == key then none else lookup key dict)
  unfolding lookup without
  lookup-without gone key [] = ground arith
  lookup-without gone key ((other, a) ∷ rest) =
      ground
        (lookup-without gone key rest, eq_iff gone key, eq_iff other key, eq_iff other gone, arith)

  -- `dict[key] = new`
  unfoldable pub insert : String → A → List (String × A) → List (String × A)
  insert key new [] = (key, new) ∷ []
  insert key new ((other, a) ∷ rest) =
      let later = insert key new rest in
      if other == key then (key, new) ∷ rest else (other, a) ∷ later

  pub lookup-insert :
      (set key : String) (new : A) (dict : List (String × A))
      → lookup key (insert set new dict) ≡ (if set == key then some new else lookup key dict)
  unfolding lookup insert
  lookup-insert set key new [] = refl
  lookup-insert set key new ((other, a) ∷ rest) =
      ground
        (lookup-insert set key new rest, eq_iff set key, eq_iff other key, eq_iff other set, arith)

pub ruleset dict_laws = (lookup-insert, lookup-without)
