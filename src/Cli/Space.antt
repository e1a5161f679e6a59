-- ===== src/Cli/Space.antt =====
-- `strings.TrimSpace`, as cmd/pplx uses it.
use perplexity_proxy_go.Prelude.{
  Char, code, Bool, ◌&&◌, ◌||◌, String, leb, eqb, if◌then◌else◌, ◌==◌,
}

-- `unicode.IsSpace`
is_white : Char → Bool
is_white c =
    (leb 9 (code c) && leb (code c) 13)
    || eqb (code c) 32
    || eqb (code c) 0x85
    || eqb (code c) 0xa0
    || eqb (code c) 0x1680
    || (leb 0x2000 (code c) && leb (code c) 0x200a)
    || eqb (code c) 0x2028
    || eqb (code c) 0x2029
    || eqb (code c) 0x202f
    || eqb (code c) 0x205f
    || eqb (code c) 0x3000

trim_left : String → String
unfolding is_white
trim_left String.[] = String.[]
trim_left (String.◌∷◌ c s) = let later = trim_left s in if is_white c then later else String.◌∷◌ c s

trim_right : String → String
unfolding is_white
trim_right String.[] = String.[]
trim_right (String.◌∷◌ c s) =
    let later = trim_right s in
    if later == "" then (if is_white c then "" else String.◌∷◌ c "") else String.◌∷◌ c later

unfoldable pub trim_text : String → String
unfolding trim_left trim_right
trim_text s = trim_left (trim_right s)
