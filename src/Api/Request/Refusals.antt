-- ===== src/Api/Request/Refusals.antt =====
-- The turns that `handleMessages` of internal/api/server.go refuses.
use perplexity_proxy_go.Prelude.{ℕ, suc, ◌+◌, ◌≡◌, List, [], ◌∷◌, String, arith}
use perplexity_proxy_go.Json.{Value, str, obj, end, field, Values, nil, cons}

abbrev add_zero : (i : ℕ) → i + 0 ≡ i
add_zero i = omega arith

abbrev suc_shift : (i n : ℕ) → suc i + n ≡ i + suc n
suc_shift i n = omega arith

abbrev pub text_block : String → String → Value
text_block type text = obj (field "type" (str type) (field "text" (str text) end))

-- blocks of text, and then one more block
abbrev pub blocks_then : List String → Value → Values
blocks_then [] v = cons v nil
blocks_then (t ∷ ts) v = cons (text_block "text" t) (blocks_then ts v)
