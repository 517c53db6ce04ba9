-- ===== src/Validator.antt =====
-- internal/validator/validator.go. go-playground's validator is a parameter: its `Struct` returns the
-- field errors of a value, none for a valid one.
use Prim.Native.Char.{code}
use search_engine_service.Base.{
  String, ◌<>◌, List, [], ◌∷◌, map, Option, none, some, if◌then◌else◌, ◌==◌, string_eq, nat_eq,
}
use search_engine_service.Base.Effects.{Result, plain, ok, err}

pub record ValidationError : Type 0 where
  pub field : String
  pub tag : String
  pub value : String
  pub message : String

-- The messages of the errors after the first, each behind a separator.
unfoldable join_rest : List ValidationError → String
join_rest [] = ""
join_rest (e ∷ errs) = "; " <> (e.message <> join_rest errs)

-- `ValidationErrors.Error`.
unfoldable pub error : List ValidationError → String
unfolding join_rest
error [] = ""
error (e ∷ errs) = e.message <> join_rest errs

-- The text before the first comma: `strings.SplitN(text, ",", 2)[0]`.
unfoldable pub before_comma : String → String
before_comma String.[] = String.[]
before_comma (String.◌∷◌ c text) =
    let rest = before_comma text in if code c == 44 then String.[] else String.◌∷◌ c rest

-- The function of `RegisterTagNameFunc`, of a field's `json` tag and name.
unfoldable pub tag_name : String → String → String
unfolding before_comma
tag_name json_tag field_name =
    let name = before_comma json_tag in if name == "-" then field_name else name

-- `validator.FieldError`; `value` is its `%v`.
pub record FieldError : Type 0 where
  pub field : String
  pub tag : String
  pub param : String
  pub value : String

unfoldable pub format_error_message : FieldError → String
format_error_message e =
    if e.tag == "required"
    then e.field <> " is required"
    else if e.tag == "min"
    then e.field <> " must be at least " <> e.param
    else if e.tag == "max"
    then e.field <> " must be at most " <> e.param
    else if e.tag == "oneof"
    then e.field <> " must be one of: " <> e.param
    else e.field <> " failed " <> e.tag <> " validation"

unfoldable pub of_field_error : FieldError → ValidationError
unfolding format_error_message
of_field_error e = record {
  field = e.field;
  tag = e.tag;
  value = e.value;
  message = format_error_message e;
}

-- `v.Struct(i)`: nil, or its field errors.
abbrev pub Validate : Type 0 → Type 0
Validate A = A → Option (List FieldError)

unfoldable pub validate : {A : Type 0} → Validate A → A → Option (List ValidationError)
unfolding of_field_error
validate v i = elim (v i) [ none ↦ none | some errors ↦ some (map of_field_error errors) ]

-- The errors as the one error that a handler is given.
abbrev pub as_result : Option (List ValidationError) → Result (Unit {0})
as_result none = ok tt
as_result (some errs) = err (plain (error errs))
