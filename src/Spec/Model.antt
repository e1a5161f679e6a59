-- ===== src/Spec/Model.antt =====
-- `Spec.Model` of internal/spec/spec.go: a model by name or identifier, "best" otherwise.
use perplexity_proxy_go.Prelude.{
  Bool, true, false, ◌||◌, ◌≡◌, refl, List, [], ◌∷◌, ◌++◌, All, String, ◌==◌, if◌then◌else◌,
}
use perplexity_proxy_go.Spec.Decode.{Model, Spec}

abbrev pub no_model : Model
no_model = record { name = ""; identifier = ""; mode = "" }

-- the second loop
find_best : List Model → Model
find_best [] = no_model
find_best (m ∷ ms) = if m.name == "best" then m else find_best ms

abbrev pub is_called : String → Model → Bool
is_called name m = m.name == name || m.identifier == name

-- the first loop; `others` is what it falls back to
find_model : String → List Model → Model → Model
find_model name [] others = others
find_model name (m ∷ ms) others = if is_called name m then m else find_model name ms others

-- `Spec.Model`
unfoldable pub model : Spec → String → Model
unfolding find_best find_model
model sp name = find_model name sp.models (find_best sp.models)

abbrev pub NotCalled : String → Model → Type 0
NotCalled name m = is_called name m ≡ false

find_model-append :
    (name : String) (before after : List Model) (m others : Model)
    → All (NotCalled name) before
    → is_called name m ≡ true
    → find_model name (before ++ m ∷ after) others ≡ m
unfolding find_model
find_model-append name [] after m others h k = rw k refl
find_model-append name (b ∷ before) after m others (p, h) k =
    rw p (find_model-append name before after m others h k)

find_model_none :
    (name : String) (ms : List Model) (others : Model)
    → All (NotCalled name) ms
    → find_model name ms others ≡ others
unfolding find_model
find_model_none name [] others h = refl
find_model_none name (m ∷ ms) others (p, h) = rw p (find_model_none name ms others h)

find_best-append :
    (before after : List Model) (m : Model)
    → All (λ b. (b.name == "best") ≡ false) before
    → (m.name == "best") ≡ true
    → find_best (before ++ m ∷ after) ≡ m
unfolding find_best
find_best-append [] after m h k = rw k refl
find_best-append (b ∷ before) after m (p, h) k = rw p (find_best-append before after m h k)

-- A model that is called by the given text, by its name or its identifier, and has none of that
-- kind before it in the list, is the one that the lookup gives.
model-eq-first :
    (sp : Spec) (name : String) (before after : List Model) (m : Model)
    → sp.models ≡ before ++ m ∷ after
    → All (NotCalled name) before
    → is_called name m ≡ true
    → model sp name ≡ m
unfolding model
model-eq-first sp name before after m e h k = rw e (find_model-append name before after m _ h k)

-- A text that no model is called by gives the first model named "best".
model-eq-best :
    (sp : Spec) (name : String) (before after : List Model) (m : Model)
    → sp.models ≡ before ++ m ∷ after
    → All (NotCalled name) sp.models
    → All (λ b. (b.name == "best") ≡ false) before
    → (m.name == "best") ≡ true
    → model sp name ≡ m
unfolding model
model-eq-best sp name before after m e h j k =
    rw (find_model_none name sp.models _ h, e) (find_best-append before after m j k)
