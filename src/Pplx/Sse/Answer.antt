-- ===== src/Pplx/Sse/Answer.antt =====
-- Citations carry the positions by which the answer's markers name them.
use perplexity_proxy_go.Prelude.{
  ℤ, pos, negsuc, Bool, false, ℕ, zero, suc, ◌+◌, ◌≤◌, ◌≡◌, refl, List, [], ◌∷◌, Option, none, some,
  eqb, get_elem?, if◌then◌else◌, arith,
}
use perplexity_proxy_go.Json.{Value, null, obj, at, str_or_empty}
use perplexity_proxy_go.Pplx.Sse.{Citation, cite}

-- the number `%d` of a marker is the index
abbrev is_index : ℕ → ℤ → Bool
is_index n (pos m) = eqb m n
is_index n (negsuc m) = false

-- The citation that a marker [n] in the answer names.
unfoldable pub cited : ℕ → List Citation → Option Citation
cited n [] = none
cited n (c ∷ cs) = if is_index n c.index then some c else cited n cs

-- What the web result at position `n` gives a citation, if it is an object.
abbrev pub source : ℕ → Option Value → Option Citation
source n (some (obj r)) =
    some (record {
      index = pos n;
      title = str_or_empty (at "name" r);
      url = str_or_empty (at "url" r);
    })
source n _ = none

cited_before : (n i : ℕ) (vs : List Value) → n ≤ i → cited n (cite i vs) ≡ none
unfolding cite cited
cited_before n i [] h = refl
cited_before n i (obj r ∷ vs) h = ground (arith, cited_before n (suc i) vs)
cited_before n i (null ∷ vs) h = cited_before n (suc i) vs (omega arith)
cited_before n i (_ ∷ vs) h = cited_before n (suc i) vs (omega arith)

cited-cite_from :
    (n i k : ℕ) (vs : List Value)
    → n ≡ suc (i + k)
    → cited n (cite i vs) ≡ source n (get_elem? vs k)
unfolding cite cited
cited-cite_from n i k [] h = refl
cited-cite_from n i zero (obj r ∷ vs) h = ground arith
cited-cite_from n i zero (null ∷ vs) h = cited_before n (suc i) vs (omega arith)
cited-cite_from n i zero (_ ∷ vs) h = cited_before n (suc i) vs (omega arith)
cited-cite_from n i (suc k) (obj r ∷ vs) h =
    ground (arith, cited-cite_from n (suc i) k vs (omega arith))
cited-cite_from n i (suc k) (null ∷ vs) h = cited-cite_from n (suc i) k vs (omega arith)
cited-cite_from n i (suc k) (_ ∷ vs) h = cited-cite_from n (suc i) k vs (omega arith)

-- The marker [k + 1] in an answer names the web result at position k, with its name and URL, where
-- that result is an object; results of other shapes are skipped and keep their number.
pub cited-cite :
    (k : ℕ) (vs : List Value) → cited (suc k) (cite 0 vs) ≡ source (suc k) (get_elem? vs k)
cited-cite k vs = cited-cite_from (suc k) 0 k vs (omega arith)
