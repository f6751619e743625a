-- ===== src/Sites/Params.antt =====
-- internal/engine/engine.go: the check of a caller's parameters against those that the driver declares.
use apod.Base.{
  ℕ, Bool, not, ◌&&◌, ◌||◌, String, Option, none, some, List, [], ◌∷◌, Result, ok, err, invalid,
  ◌>>◌, ◌==◌, nat_eq, string_eq, if◌then◌else◌, find, any, codes, length, ltb,
}
use apod.Base.Names.{is_lower, is_upper, is_digit, all_chars}
use apod.Sites.{Parameter, Driver}

-- `[A-Za-z0-9._/:@+-]`.
abbrev pub is_param_char : ℕ → Bool
is_param_char c =
    is_lower c
    || is_upper c
    || is_digit c
    || c == 46
    || c == 95
    || c == 47
    || c == 58
    || c == 64
    || c == 43
    || c == 45

abbrev pub has_key : String → String × String → Bool
has_key key (k, v) = k == key

module _ (is_float : String → Bool) (params : List (String × String)) where
  -- The checks of a value.
  unfoldable pub validate_param : Parameter → String → Result (Unit {0})
  unfolding all_chars any
  validate_param def val =
      if not (all_chars is_param_char (codes val))
      then err (invalid "parameter %q contains disallowed characters")
      else if ltb 0 (length def.options) && not (any (λ o. val == o) def.options)
      then err (invalid "parameter %q must be one of the allowed options")
      else if (def.kind == "int" || def.kind == "number") && not (is_float val)
      then err (invalid "parameter %q must be a number")
      else ok tt

  -- The body of the loop: a parameter that the caller leaves out takes its default.
  unfoldable pub validate_given : Parameter → Option (String × String) → Result (Unit {0})
  unfolding validate_param
  validate_given def none = ok tt
  validate_given def (some (k, val)) = validate_param def val

  -- `validateDriverParams`, in one order of the map.
  unfoldable pub validate_params : List Parameter → Result (Unit {0})
  unfolding validate_given find
  validate_params [] = ok tt
  validate_params (def ∷ defs) =
      validate_given def (find (has_key def.key) params) >> validate_params defs

abbrev pub validate_driver_params :
    (String → Bool) → Driver → List (String × String) → Result (Unit {0})
validate_driver_params is_float driver params = validate_params is_float params driver.parameters
