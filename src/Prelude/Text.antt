-- ===== src/Prelude/Text.antt =====
-- Go's `strings` on valid UTF-8, and the bytes of a text.
use Prim.Native.Nat.{ℕ, zero, suc, ◌+◌, ◌/◌, ◌%◌}
use Prim.Native.Char.{Char, code}
use Prim.Native.String
use Prim.Native.String.{String}
use mathlib.Core.Path.{◌≡◌, sym, ap, ◌∙◌}
use mathlib.Core.Bool.{Bool, true, ◌||◌}
use mathlib.Core.List.{List, [], ◌∷◌, ◌++◌}
use native.Mathlib.Omega.{arith}
use text.Mathlib.Text.{starts_with}
use text.Mathlib.TextLemmas.{nil-append, cons-append, append_assoc}
use text.Mathlib.TextEquality.{starts_with_iff}
use text.Mathlib.TextPositions.{starts_with_of_prefix}
use perplexity_proxy_go.Prelude.Tests.{ltb, if◌then◌else◌}

infixl 66 ◌⧺◌
-- `s + t`
abbrev pub ◌⧺◌ : String → String → String
s ⧺ t = String.◌++◌ s t

-- `strings.Join`
abbrev pub join : String → List String → String
join sep [] = ""
join sep (s ∷ []) = s
join sep (s ∷ t ∷ rest) = s ⧺ sep ⧺ join sep (t ∷ rest)

-- `strings.Contains`
unfoldable pub contains : String → String → Bool
contains String.[] sub = starts_with String.[] sub
contains (String.◌∷◌ c s) sub = starts_with (String.◌∷◌ c s) sub || contains s sub

abbrev strip_char : Char → String → String
strip_char c String.[] = String.[]
strip_char c (String.◌∷◌ d s) = s

-- `s[len(p):]` for a text that begins with `p`
abbrev pub drop_prefix : String → String → String
drop_prefix s String.[] = s
drop_prefix s (String.◌∷◌ c p) = drop_prefix (strip_char c s) p

-- the first `n` runes, `string([]rune(s)[:n])`
abbrev pub take_runes : ℕ → String → String
take_runes zero s = String.[]
take_runes (suc n) String.[] = String.[]
take_runes (suc n) (String.◌∷◌ c s) = String.◌∷◌ c (take_runes n s)

abbrev pub Bytes : Type 0
Bytes = List ℕ

-- the UTF-8 bytes of a code point
abbrev utf8 : ℕ → Bytes
utf8 c =
    if ltb c 0x80
    then c ∷ []
    else if ltb c 0x800
    then (0xc0 + c / 64) ∷ (0x80 + c % 64) ∷ []
    else if ltb c 0x10000
    then (0xe0 + c / 4096) ∷ (0x80 + c / 64 % 64) ∷ (0x80 + c % 64) ∷ []
    else (0xf0 + c / 262144) ∷ (0x80 + c / 4096 % 64) ∷ (0x80 + c / 64 % 64) ∷ (0x80 + c % 64) ∷ []

-- `[]byte(s)`
abbrev pub bytes : String → Bytes
bytes String.[] = []
bytes (String.◌∷◌ c s) = utf8 (code c) ++ bytes s

or_left : (a b : Bool) → a ≡ true → (a || b) ≡ true
or_left a b h = ground arith

or_right : (a b : Bool) → b ≡ true → (a || b) ≡ true
or_right a b h = ground arith

or_mono :
    (a b c d : Bool)
    → (a ≡ true → c ≡ true)
    → (b ≡ true → d ≡ true)
    → (a || b) ≡ true
    → (c || d) ≡ true
or_mono a b c d f g h = ground arith

pub contains-append_left : (p s sub : String) → contains s sub ≡ true → contains (p ⧺ s) sub ≡ true
unfolding contains
contains-append_left String.[] s sub h = rw nil-append h
contains-append_left (String.◌∷◌ c p) s sub h =
    rw cons-append (or_right _ _ (contains-append_left p s sub h))

pub starts_with-append_right :
    (s t sub : String) → starts_with s sub ≡ true → starts_with (s ⧺ t) sub ≡ true
starts_with-append_right s t sub h =
    let (u, e) = (starts_with_iff s sub).0 h in
    starts_with_of_prefix sub (s ⧺ t) (u ⧺ t, sym (append_assoc sub u t) ∙ ap (λ v. v ⧺ t) e)

contains_of_starts_with : (s sub : String) → starts_with s sub ≡ true → contains s sub ≡ true
unfolding contains
contains_of_starts_with String.[] sub h = h
contains_of_starts_with (String.◌∷◌ c s) sub h = or_left _ _ h

pub contains-append_right : (s t sub : String) → contains s sub ≡ true → contains (s ⧺ t) sub ≡ true
unfolding contains
contains-append_right String.[] t sub h =
    contains_of_starts_with _ sub (starts_with-append_right String.[] t sub h)
contains-append_right (String.◌∷◌ c s) t sub h = rw cons-append (
    or_mono _ _ _ _ (λ e. rw cons-append at (starts_with-append_right (String.◌∷◌ c s) t sub e))
      (contains-append_right s t sub) h)

pub drop_prefix-append : (p s : String) → drop_prefix (p ⧺ s) p ≡ s
drop_prefix-append String.[] s = nil-append s
drop_prefix-append (String.◌∷◌ c p) s = rw cons-append (drop_prefix-append p s)
