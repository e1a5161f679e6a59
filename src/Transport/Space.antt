-- ===== src/Transport/Space.antt =====
-- `bytes.TrimSpace` and `bytes.TrimRight(b, "\r")` on UTF-8, as internal/transport/plain.go and
-- internal/pplx/sse.go use them.
use mathlib.Core.List.{reverse}
use perplexity_proxy_go.Prelude.{
  ℕ, Bool, true, false, ◌&&◌, ◌||◌, [], ◌∷◌, Bytes, leb, eqb, if◌then◌else◌,
}

-- `unicode.IsSpace` of a rune of one, two or three bytes
is_space : ℕ → Bool
is_space a = (leb 9 a && leb a 13) || eqb a 32

is_space_pair : ℕ → ℕ → Bool
is_space_pair a b = eqb a 0xc2 && (eqb b 0x85 || eqb b 0xa0)

is_space_triple : ℕ → ℕ → ℕ → Bool
is_space_triple a b c =
    (eqb a 0xe1 && eqb b 0x9a && eqb c 0x80)
    || (eqb a 0xe2
        && eqb b 0x80
        && ((leb 0x80 c && leb c 0x8a) || eqb c 0xa8 || eqb c 0xa9 || eqb c 0xaf))
    || (eqb a 0xe2 && eqb b 0x81 && eqb c 0x9f)
    || (eqb a 0xe3 && eqb b 0x80 && eqb c 0x80)

trim_by : (ℕ → ℕ → Bool) → (ℕ → ℕ → ℕ → Bool) → Bytes → Bytes
unfolding is_space
trim_by two three [] = []
trim_by two three (a ∷ []) = if is_space a then [] else a ∷ []
trim_by two three (a ∷ b ∷ []) =
    let one = trim_by two three (b ∷ []) in
    if is_space a then one else if two a b then [] else a ∷ b ∷ []
trim_by two three (a ∷ b ∷ c ∷ r) =
    let one = trim_by two three (b ∷ c ∷ r) in
    let pair = trim_by two three (c ∷ r) in
    let triple = trim_by two three r in
    if is_space a
    then one
    else if two a b
    then pair
    else if three a b c
    then triple
    else a ∷ b ∷ c ∷ r

unfoldable pub trim_space : Bytes → Bytes
unfolding trim_by is_space_pair is_space_triple
trim_space s = reverse (
    trim_by (λ a b. is_space_pair b a) (λ a b c. is_space_triple c b a)
      (reverse (trim_by is_space_pair is_space_triple s)))

abbrev is_empty : Bytes → Bool
is_empty [] = true
is_empty (b ∷ s) = false

-- `len(bytes.TrimSpace(s)) == 0`
unfoldable pub is_blank : Bytes → Bool
unfolding trim_space
is_blank s = is_empty (trim_space s)

trim_cr_front : Bytes → Bytes
trim_cr_front [] = []
trim_cr_front (b ∷ s) = let rest = trim_cr_front s in if eqb b 13 then rest else b ∷ s

unfoldable pub trim_cr : Bytes → Bytes
unfolding trim_cr_front
trim_cr s = reverse (trim_cr_front (reverse s))
