-- ===== src/SaveErrors/Isolation.antt =====
-- One editor's failures and successes leave the other editors' errors as they are, and the flag
-- that guards navigation is that of the errors there are.
use yanta.Prelude.{
  ◌≡◌, refl, Bool, false, Option, none, some, List, [], ◌∷◌, String, str_eq, lookup, lookup-insert,
  lookup-erase, Bool-cases, inl, inr,
}
use yanta.SaveErrors.{
  SaveErrorEntry, SaveErrorState, any_dirty, no_errors, set_error, clear_found, clear_error,
  dirty_found, set_dirty_error, same_bool,
}

pub data Call (R : Type 0) : Type 0 where
  set : (key error : String) → (retry_fn : Option R) → Call R
  clear : (key : String) → Call R
  set_dirty : (key : String) → (dirty : Bool) → Call R

module _ {R : Type 0} where
  unfoldable pub call : Call R → SaveErrorState R → SaveErrorState R
  call (set key error retry_fn) s = set_error key error retry_fn s
  call (clear key) s = clear_error key s
  call (set_dirty key dirty) s = set_dirty_error key dirty s

  abbrev pub caller : Call R → String
  caller (set key error retry_fn) = key
  caller (clear key) = key
  caller (set_dirty key dirty) = key

  unfoldable pub run : List (Call R) → SaveErrorState R → SaveErrorState R
  run [] s = s
  run (c ∷ cs) s = run cs (call c s)

  clear_found-other :
      (key other : String) (o : Option (SaveErrorEntry R)) (s : SaveErrorState R)
      → str_eq key other ≡ false
      → lookup other (clear_found key o s).errors ≡ lookup other s.errors
  clear_found-other key other none s h = refl
  clear_found-other key other (some _) s h = rw (lookup-erase key other s.errors, h) refl

  dirty_found-other :
      (key other : String) (dirty : Bool) (o : Option (SaveErrorEntry R)) (s : SaveErrorState R)
      → str_eq key other ≡ false
      → lookup other (dirty_found key dirty o s).errors ≡ lookup other s.errors
  dirty_found-other key other dirty none s h = refl
  dirty_found-other key other dirty (some entry) s h =
      elim (Bool-cases (same_bool entry.is_dirty dirty)) [
        | inl same ↦ rw same refl
        | inr changed ↦
            rw (changed, lookup-insert key other (record entry { is_dirty = dirty }) s.errors, h)
              refl
      ]

  -- A call of one editor leaves every other editor's error as it is.
  pub call-other :
      (c : Call R) (s : SaveErrorState R) (other : String)
      → str_eq (caller c) other ≡ false
      → lookup other (call c s).errors ≡ lookup other s.errors
  unfolding call set_error clear_error set_dirty_error
  call-other (set key error retry_fn) s other h = rw (lookup-insert key other _ s.errors, h) refl
  call-other (clear key) s other h = clear_found-other key other (lookup key s.errors) s h
  call-other (set_dirty key dirty) s other h =
      dirty_found-other key other dirty (lookup key s.errors) s h

  clear_found-guarded :
      (key : String) (o : Option (SaveErrorEntry R)) (s : SaveErrorState R)
      → s.has_dirty_error ≡ any_dirty s.errors
      → (clear_found key o s).has_dirty_error ≡ any_dirty (clear_found key o s).errors
  clear_found-guarded key none s h = h
  clear_found-guarded key (some _) s h = refl

  dirty_found-guarded :
      (key : String) (dirty : Bool) (o : Option (SaveErrorEntry R)) (s : SaveErrorState R)
      → s.has_dirty_error ≡ any_dirty s.errors
      → (dirty_found key dirty o s).has_dirty_error ≡ any_dirty (dirty_found key dirty o s).errors
  dirty_found-guarded key dirty none s h = h
  dirty_found-guarded key dirty (some entry) s h =
      elim (Bool-cases (same_bool entry.is_dirty dirty)) [
        | inl same ↦ rw same h
        | inr changed ↦ rw changed refl
      ]

  call-guarded :
      (c : Call R) (s : SaveErrorState R)
      → s.has_dirty_error ≡ any_dirty s.errors
      → (call c s).has_dirty_error ≡ any_dirty (call c s).errors
  unfolding call set_error clear_error set_dirty_error
  call-guarded (set key error retry_fn) s h = refl
  call-guarded (clear key) s h = clear_found-guarded key (lookup key s.errors) s h
  call-guarded (set_dirty key dirty) s h = dirty_found-guarded key dirty (lookup key s.errors) s h

  pub run-guarded :
      (cs : List (Call R)) (s : SaveErrorState R)
      → s.has_dirty_error ≡ any_dirty s.errors
      → (run cs s).has_dirty_error ≡ any_dirty (run cs s).errors
  unfolding run
  run-guarded [] s h = h
  run-guarded (c ∷ cs) s h = run-guarded cs (call c s) (call-guarded c s h)

  -- After any calls from the start, the flag that guards navigation is set exactly when the error of
  -- some editor is dirty.
  pub navigation_guard :
      (cs : List (Call R))
      → (run cs no_errors).has_dirty_error ≡ any_dirty (run cs no_errors).errors
  unfolding any_dirty
  navigation_guard cs = run-guarded cs no_errors refl
