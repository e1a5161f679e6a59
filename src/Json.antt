-- ===== src/Json.antt =====
-- The values that encoding/json gives for `any`, and the type assertions that the program makes.
-- A number keeps its text, which no modelled code reads. An object lists its members once each.
use perplexity_proxy_go.Prelude.{
  ℤ, pos, parse_int, Bool, false, Option, none, some, List, [], ◌∷◌, String, Bytes, ◌==◌,
  if◌then◌else◌,
}
use perplexity_proxy_go.Errors.{Failure, plain, Result, ok, err, ◌>>=◌}

mutual
  pub data Value : Type 0 where
    null : Value
    bool : Bool → Value
    num : String → Value
    str : String → Value
    arr : Values → Value
    obj : Fields → Value

  pub data Values : Type 0 where
    nil : Values
    cons : Value → Values → Values

  pub data Fields : Type 0 where
    end : Fields
    field : String → Value → Fields → Fields

abbrev pub elems : Values → List Value
elems nil = []
elems (cons v vs) = v ∷ elems vs

abbrev pub members : Fields → List Value
members end = []
members (field k v fs) = v ∷ members fs

abbrev pub array : List Value → Values
array [] = nil
array (v ∷ vs) = cons v (array vs)

-- `d[key]`, with `none` where Go gives nil
abbrev pub at : String → Fields → Option Value
at k end = none
at k (field j v fs) = if j == k then some v else at k fs

-- `v.(string)`, `v.(bool)`, `v.([]any)`, `v.(map[string]any)`
abbrev pub as_str : Option Value → Option String
as_str (some (str s)) = some s
as_str _ = none

abbrev pub as_true : Option Value → Bool
as_true (some (bool b)) = b
as_true _ = false

abbrev pub as_arr : Option Value → Option (List Value)
as_arr (some (arr vs)) = some (elems vs)
as_arr _ = none

abbrev pub as_obj : Option Value → Option Fields
as_obj (some (obj fs)) = some fs
as_obj _ = none

-- `s, _ := v.(string)`
abbrev pub str_or_empty : Option Value → String
str_or_empty (some (str s)) = s
str_or_empty _ = ""

-- `json.Unmarshal` into a `map[string]any`: null leaves the map nil, another type is an error
abbrev pub as_map : Option Value → Option Fields
as_map (some null) = some end
as_map (some (obj fs)) = some fs
as_map _ = none

-- encoding/json: `none` for a text that is no JSON
pub record Codec : Type 0 where
  pub parse : Bytes → Option Value
  pub print : Value → Bytes

-- A failure of `json.Unmarshal`, whose text no modelled code reads but to print it.
abbrev pub bad_json : Failure
bad_json = plain "json: cannot unmarshal"

-- `json.Unmarshal` into a struct's field of type string, bool, int, *string or struct: an absent
-- member and null leave the zero value, another type is an error. Member names match exactly.
abbrev pub to_str : Option Value → Result String
to_str none = ok ""
to_str (some null) = ok ""
to_str (some (str s)) = ok s
to_str (some _) = err bad_json

abbrev pub to_bool : Option Value → Result Bool
to_bool none = ok false
to_bool (some null) = ok false
to_bool (some (bool b)) = ok b
to_bool (some _) = err bad_json

abbrev pub to_str_pointer : Option Value → Result (Option String)
to_str_pointer none = ok none
to_str_pointer (some null) = ok none
to_str_pointer (some (str s)) = ok (some s)
to_str_pointer (some _) = err bad_json

abbrev pub to_struct : Option Value → Result Fields
to_struct none = ok end
to_struct (some null) = ok end
to_struct (some (obj fs)) = ok fs
to_struct (some _) = err bad_json

abbrev pub to_slice : Option Value → Result (List Value)
to_slice none = ok []
to_slice (some null) = ok []
to_slice (some (arr vs)) = ok (elems vs)
to_slice (some _) = err bad_json

-- into an int: the text of a JSON integer in the range of 64 bits
abbrev to_integer : Option ℤ → Result ℤ
to_integer none = err bad_json
to_integer (some n) = ok n

abbrev pub to_int : Option Value → Result ℤ
to_int none = ok (pos 0)
to_int (some null) = ok (pos 0)
to_int (some (num text)) = to_integer (parse_int text)
to_int (some _) = err bad_json

abbrev pub to_int_pointer : Option Value → Result (Option ℤ)
to_int_pointer none = ok none
to_int_pointer (some null) = ok none
to_int_pointer (some (num text)) = to_integer (parse_int text) >>= λ n. ok (some n)
to_int_pointer (some _) = err bad_json

-- what a document is as a whole: it must be JSON, and then is decoded as a struct is
abbrev pub to_document : Option Value → Result Fields
to_document none = err bad_json
to_document (some v) = to_struct (some v)
