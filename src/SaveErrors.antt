-- ===== src/SaveErrors.antt =====
-- The errors of saves, frontend/src/shared/stores/saveError.store.ts.  The token of an editor's
-- instance is a text here; what is retried and the error itself are opaque.
pub mod Isolation
pub mod Examples
use yanta.Prelude.{
  Bool, true, false, not, ◌||◌, ◌&&◌, Option, none, some, List, [], ◌∷◌, String, lookup, insert,
  erase, if◌then◌else◌,
}

pub record SaveErrorEntry (R : Type 0) : Type 0 where
  pub error : String
  pub retry_fn : Option R
  pub is_dirty : Bool

pub record SaveErrorState (R : Type 0) : Type 0 where
  pub errors : List (String × SaveErrorEntry R)
  pub has_dirty_error : Bool

abbrev pub same_bool : Bool → Bool → Bool
same_bool true b = b
same_bool false b = not b

module _ {R : Type 0} where
  unfoldable pub any_dirty : List (String × SaveErrorEntry R) → Bool
  any_dirty [] = false
  any_dirty ((_, entry) ∷ errors) = entry.is_dirty || any_dirty errors

  abbrev pub with_errors : List (String × SaveErrorEntry R) → SaveErrorState R
  with_errors errors = record { errors = errors; has_dirty_error = any_dirty errors }

  abbrev pub no_errors : SaveErrorState R
  no_errors = record { errors = []; has_dirty_error = false }

  unfoldable pub set_error : String → String → Option R → SaveErrorState R → SaveErrorState R
  set_error key error retry_fn s =
      with_errors
        (insert key (record { error = error; retry_fn = retry_fn; is_dirty = true }) s.errors)

  abbrev pub clear_found : String → Option (SaveErrorEntry R) → SaveErrorState R → SaveErrorState R
  clear_found key none s = s
  clear_found key (some _) s = with_errors (erase key s.errors)

  unfoldable pub clear_error : String → SaveErrorState R → SaveErrorState R
  clear_error key s = clear_found key (lookup key s.errors) s

  abbrev pub dirty_found :
      String → Bool → Option (SaveErrorEntry R) → SaveErrorState R → SaveErrorState R
  dirty_found key dirty none s = s
  dirty_found key dirty (some entry) s =
      if same_bool entry.is_dirty dirty
      then s
      else with_errors (insert key (record entry { is_dirty = dirty }) s.errors)

  unfoldable pub set_dirty_error : String → Bool → SaveErrorState R → SaveErrorState R
  set_dirty_error key dirty s = dirty_found key dirty (lookup key s.errors) s
