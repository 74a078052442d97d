-- ===== src/NavGuard/Laws.antt =====
-- A failed save holds navigation back until the user decides.
use yanta.Prelude.{
  ◌≡◌, refl, sym, ap, ◌∙◌, Bool, true, false, ◌||◌, Bool-cases, inl, inr, Option, none, some,
  String, str_eq, eq_refl, List, [], ◌∷◌, All, lookup, lookup-insert, arith, if◌then◌else◌,
}
use yanta.SaveErrors.{SaveErrorEntry, SaveErrorState, any_dirty, no_errors, set_error}
use yanta.SaveErrors.Isolation.{Call, call, caller, run, call-other, run-guarded}
use yanta.NavGuard.{NavGuard, guarded_navigate, confirmed, confirm_navigation, cancel_navigation}

-- What the user does: ask for a destination, with the store's flag at the time, or answer.
pub data Event (D : Type 0) : Type 0 where
  ask : Bool → D → Event D
  confirm : Event D
  cancel : Event D

abbrev pub step : {D : Type 0} → Event D → NavGuard D → NavGuard D
step (ask has_dirty_error d) g = guarded_navigate has_dirty_error d g
step confirm g = confirm_navigation g
step cancel g = cancel_navigation g

abbrev pub steps : {D : Type 0} → List (Event D) → NavGuard D → NavGuard D
steps [] g = g
steps (e ∷ es) g = steps es (step e g)

abbrev pub is_waiting : {D : Type 0} → Option D → Bool
is_waiting none = false
is_waiting (some d) = true

abbrev pub fresh_guard : {D : Type 0} → NavGuard D
fresh_guard = record { show_dialog = false; pending = none; visited = [] }

module _ {D : Type 0} where
  confirmed-waits :
      (o : Option D) (g : NavGuard D)
      → g.show_dialog ≡ false
      → g.pending ≡ o
      → (confirmed o g).show_dialog ≡ is_waiting (confirmed o g).pending
  confirmed-waits none g h e = h ∙ sym (ap is_waiting e)
  confirmed-waits (some d) g h e = h

  guarded_navigate-waits :
      (dirty : Bool) (d : D) (g : NavGuard D)
      → g.show_dialog ≡ is_waiting g.pending
      → (guarded_navigate dirty d g).show_dialog ≡ is_waiting (guarded_navigate dirty d g).pending
  unfolding guarded_navigate
  guarded_navigate-waits true d g h = refl
  guarded_navigate-waits false d g h = h

  step-waits :
      (e : Event D) (g : NavGuard D)
      → g.show_dialog ≡ is_waiting g.pending
      → (step e g).show_dialog ≡ is_waiting (step e g).pending
  unfolding confirm_navigation cancel_navigation
  step-waits (ask dirty d) g h = guarded_navigate-waits dirty d g h
  step-waits confirm g h = confirmed-waits g.pending (record g { show_dialog = false }) refl refl
  step-waits cancel g h = refl

  steps-waits :
      (es : List (Event D)) (g : NavGuard D)
      → g.show_dialog ≡ is_waiting g.pending
      → (steps es g).show_dialog ≡ is_waiting (steps es g).pending
  steps-waits [] g h = h
  steps-waits (e ∷ es) g h = steps-waits es (step e g) (step-waits e g h)

  -- Whatever the user does, the dialog is shown exactly while a destination waits for an answer.
  pub dialog_waits :
      (es : List (Event D))
      → (steps es (fresh_guard {D = D})).show_dialog
        ≡ is_waiting (steps es (fresh_guard {D = D})).pending
  dialog_waits es = steps-waits es fresh_guard refl

any_dirty_of_lookup :
    {R : Type 0} (key : String) (entry : SaveErrorEntry R)
    (errors : List (String × SaveErrorEntry R))
    → lookup key errors ≡ some entry
    → entry.is_dirty ≡ true
    → any_dirty errors ≡ true
unfolding any_dirty
any_dirty_of_lookup key entry [] h k = absurd (ground arith)
any_dirty_of_lookup key entry ((j, e) ∷ errors) h k = elim (Bool-cases (str_eq j key)) [
  | inl same ↦ rw (dirty (rw same at h)) refl
  | inr other ↦
      or_right e.is_dirty (any_dirty errors)
        (any_dirty_of_lookup key entry errors (rw other at h) k)
]
  where
    dirty : some e ≡ some entry → e.is_dirty ≡ true
    dirty same = cc (same, k)

    or_right : (a b : Bool) → b ≡ true → (a || b) ≡ true
    or_right true b h = refl
    or_right false b h = h

run-other :
    {R : Type 0} (cs : List (Call R)) (s : SaveErrorState R) (other : String)
    → All (λ c. str_eq (caller c) other ≡ false) cs
    → lookup other (run cs s).errors ≡ lookup other s.errors
unfolding run
run-other [] s other h = refl
run-other (c ∷ cs) s other (h, k) = run-other cs (call c s) other k ∙ call-other c s other h

-- After a save of an editor fails, whatever happened before and whatever the other editors report
-- after, asking for a destination visits nothing: the destination waits, and the dialog is shown.
pub guarded_navigate_after_failure :
    {R D : Type 0} (before after : List (Call R)) (key error : String) (retry_fn : Option R)
    → All (λ c. str_eq (caller c) key ≡ false) after
    → (d : D) (g : NavGuard D)
    → guarded_navigate
        (run after (set_error key error retry_fn (run before no_errors))).has_dirty_error
        d
        g
      ≡ record g { show_dialog = true; pending = some d }
unfolding guarded_navigate set_error
guarded_navigate_after_failure {R} {D} before after key error retry_fn h d g = rw flag refl
  where
    failed : SaveErrorState R
    failed = set_error key error retry_fn (run before no_errors)

    flag : (run after failed).has_dirty_error ≡ true
    flag =
        run-guarded after failed refl
        ∙ any_dirty_of_lookup key entry (run after failed).errors
            (run-other after failed key h
              ∙ lookup-insert key key entry (run before no_errors).errors
              ∙ found)
            refl
      where
        entry : SaveErrorEntry R
        entry = record { error = error; retry_fn = retry_fn; is_dirty = true }

        found :
            (if str_eq key key then some entry else lookup key (run before no_errors).errors)
            ≡ some entry
        found = rw (eq_refl key) refl
