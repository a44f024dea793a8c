-- ===== src/Logging/Fields.antt =====
-- The fields of the logger of internal/logging/logging.go.
use perpx_load_test.Base.{ℕ, ◌≡◌, refl, sym, ap, ◌∙◌, String, List, [], ◌∷◌}
use perpx_load_test.Logging.{Value, Logger, set_field, push_fields, popped, pop_fields}

abbrev pub set_all : List (String × Value) → Logger → Logger
set_all [] l = l
set_all (e ∷ rest) l = set_all rest (set_field e.0 e.1 l)

-- A logger with another stack of pushed maps.
abbrev stacked : List ℕ → Logger → Logger
stacked ms l = record l { pushed = ms }

set_all-stacked :
    (es : List (String × Value)) (ms : List ℕ) (l : Logger)
    → set_all es (stacked ms l) ≡ stacked ms (set_all es l)
unfolding set_field
set_all-stacked [] ms l = refl
set_all-stacked (e ∷ es) ms l = set_all-stacked es ms (set_field e.0 e.1 l)

set_all-fields :
    (es : List (String × Value)) (l : Logger)
    → ((set_all es l).fields ≡ l.fields) × ((set_all es l).pushed ≡ l.pushed)
unfolding set_field
set_all-fields [] l = (refl, refl)
set_all-fields (e ∷ es) l = set_all-fields es (set_field e.0 e.1 l)

-- The fields that are set between `PushFields` and its `PopFields` stay: the logger is the one that
-- setting them alone leaves, so that nothing of what was pushed is brought back.
pub pop_fields-push_fields :
    (es : List (String × Value)) (l : Logger)
    → pop_fields (set_all es (push_fields l)) ≡ set_all es l
unfolding pop_fields popped push_fields
pop_fields-push_fields es l =
    let s = set_all es l in
    let (p, q) = set_all-fields es l in
    ap pop_fields (set_all-stacked es (l.fields ∷ l.pushed) l)
    ∙ ap (λ f. record s { fields = f; pushed = l.pushed }) (sym p)
    ∙ ap (λ m. record s { pushed = m }) (sym q)
