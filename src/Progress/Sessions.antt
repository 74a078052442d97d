-- ===== src/Progress/Sessions.antt =====
-- The progress over sessions, frontend/src/shared/stores/progress.store.ts: what the storage gives
-- back, and which hints are on record.
use mathlib.Core.Path.{subst}
use yanta.Prelude.{
  ℕ, ◌==◌, Bool, true, false, ◌&&◌, ◌||◌, Bool-cases, Option, none, some, String, str_eq,
  ne_of_str_eq, Distinct, Distinct-append_one, map, List, [], ◌∷◌, ◌++◌, length, any, All, arith,
  inl, inr, refl, sym, ap, ◌∙◌, ◌≡◌, ◌≢◌,
}
use yanta.Json.{Json, str, elements-of_list}
use yanta.Persist.{Event, change, rehydrate, restart, Session, replay, run, IsRestored, run-replay}
use yanta.Progress.{
  UserProgressData, default_progress, validate_progress_data, to_json, is_default, get_item,
  set_item, Action, increment_documents_created, increment_journal_entries_created,
  increment_projects_switched, mark_hint, reset_progress, act, mark_hint_shown, has_hint_been_shown,
  is_hint,
}

zero_of : (n : ℕ) → (n == 0) ≡ true → n ≡ 0
zero_of n h = ground arith

nil_of : (l : List Json) → (length l == 0) ≡ true → l ≡ []
nil_of [] h = refl
nil_of (x ∷ l) h = ground arith

and_left : (a b : Bool) → (a && b) ≡ true → a ≡ true
and_left true b h = refl
and_left false b h = h

and_right : (a b : Bool) → (a && b) ≡ true → b ≡ true
and_right true b h = h
and_right false b h = ground arith

is_default-eq : (d : UserProgressData) → is_default d ≡ true → d ≡ default_progress
is_default-eq d h =
    let a = d.documents_created == 0 in
    let b = d.journal_entries_created == 0 in
    let c = d.projects_switched == 0 in
    let e = length d.hints_shown == 0 in
    let h2 = and_right a (b && (c && e)) h in
    let h3 = and_right b (c && e) h2 in
    λ i. record {
      documents_created = zero_of d.documents_created (and_left a (b && (c && e)) h) i;
      journal_entries_created = zero_of d.journal_entries_created (and_left b (c && e) h2) i;
      projects_switched = zero_of d.projects_switched (and_left c e h3) i;
      hints_shown = nil_of d.hints_shown (and_right c e h3) i;
    }

validate-to_json : (d : UserProgressData) → validate_progress_data (to_json d) ≡ some d
unfolding validate_progress_data
validate-to_json d i = some (record d { hints_shown = elements-of_list d.hints_shown i })

module _ {Text : Type 0} (parse : Text → Option Json) (stringify : Json → Text)
    (is_empty : Text → Bool) where
  none_kept :
      (d : UserProgressData)
      → is_default d ≡ true
      → get_item parse stringify is_empty (set_item parse stringify is_empty d) ≡ none
  unfolding get_item set_item
  none_kept d h = rw h refl

module _ {Text : Type 0} (parse : Text → Option Json) (stringify : Json → Text)
    (is_empty : Text → Bool)
    (parse-stringify : (d : UserProgressData) → parse (stringify (to_json d)) ≡ some (to_json d))
    (stringify-nonempty : (d : UserProgressData) → is_empty (stringify (to_json d)) ≡ false) where
  get_item-set_item :
      (d : UserProgressData)
      → is_default d ≡ false
      → get_item parse stringify is_empty (set_item parse stringify is_empty d) ≡ some d
  unfolding get_item set_item
  get_item-set_item d h = rw (h, stringify-nonempty d, parse-stringify d) (validate-to_json d)

  set_item-IsRestored :
      (merge : UserProgressData → Option UserProgressData → UserProgressData) (d : UserProgressData)
      → IsRestored default_progress act merge
          (get_item parse stringify is_empty)
          (set_item parse stringify is_empty)
          d
  set_item-IsRestored merge d = elim (Bool-cases (is_default d)) [
    | inl h ↦ inr (none_kept parse stringify is_empty d h, sym (is_default-eq d h))
    | inr h ↦ inl (get_item-set_item d h)
  ]

any-is_hint :
    (id : String) (ids : List String) → any (is_hint id) (map str ids) ≡ any (λ s. str_eq s id) ids
any-is_hint id [] = refl
any-is_hint id (s ∷ ids) = ap (λ b. str_eq s id || b) (any-is_hint id ids)

not_any :
    (id : String) (ids : List String) → any (λ s. str_eq s id) ids ≡ false → All (λ j. j ≢ id) ids
not_any id [] h = tt
not_any id (s ∷ ids) h =
    let parts = or_false (str_eq s id) (any (λ x. str_eq x id) ids) h in
    (ne_of_str_eq s id parts.0, not_any id ids parts.1)
  where
    or_false : (a b : Bool) → (a || b) ≡ false → (a ≡ false) × (b ≡ false)
    or_false true b q = (q, ground arith)
    or_false false b q = (refl, q)

map-append_one :
    (ids : List String) (id : String) → map str ids ++ (str id ∷ []) ≡ map str (ids ++ (id ∷ []))
map-append_one [] id = refl
map-append_one (s ∷ ids) id = ap (λ l. str s ∷ l) (map-append_one ids id)

-- The hints on record are identifiers, none of them twice.
abbrev pub AreHints : List Json → Type 0
AreHints l = (ids : List String) × (l ≡ map str ids) × Distinct ids

mark_hint_shown-AreHints :
    (id : String) (d : UserProgressData)
    → AreHints d.hints_shown
    → AreHints (mark_hint_shown id d).hints_shown
unfolding mark_hint_shown has_hint_been_shown
mark_hint_shown-AreHints id d (ids, e, h) = elim (Bool-cases (any (is_hint id) d.hints_shown)) [
  | inl b ↦ rw b (ids, e, h)
  | inr b ↦ rw b (
    ids ++ (id ∷ []),
    ap (λ l. l ++ (str id ∷ [])) e ∙ map-append_one ids id,
    Distinct-append_one ids id h
        (not_any id ids (sym (any-is_hint id ids) ∙ ap (any (is_hint id)) (sym e) ∙ b)),
  )
]

replay-AreHints :
    (es : List (Event Action)) (d : UserProgressData)
    → AreHints d.hints_shown
    → AreHints (replay act es d).hints_shown
unfolding replay act
replay-AreHints [] d h = h
replay-AreHints (rehydrate ∷ es) d h = replay-AreHints es d h
replay-AreHints (restart ∷ es) d h = replay-AreHints es d h
replay-AreHints (change increment_documents_created ∷ es) d h =
    replay-AreHints es (act increment_documents_created d) h
replay-AreHints (change increment_journal_entries_created ∷ es) d h =
    replay-AreHints es (act increment_journal_entries_created d) h
replay-AreHints (change increment_projects_switched ∷ es) d h =
    replay-AreHints es (act increment_projects_switched d) h
replay-AreHints (change (mark_hint id) ∷ es) d h =
    replay-AreHints es (mark_hint_shown id d) (mark_hint_shown-AreHints id d h)
replay-AreHints (change reset_progress ∷ es) d h =
    replay-AreHints es default_progress ([], refl, tt)

abbrev pub fresh : {Text : Type 0} → Session UserProgressData Text
fresh = record { state = default_progress; stored = none }

-- The store over sessions that keep its state in the storage; `merge` is zustand's.
abbrev pub run_sessions :
    {Text : Type 0}
    → (Text → Option Json)
    → (Json → Text)
    → (Text → Bool)
    → (UserProgressData → Option UserProgressData → UserProgressData)
    → List (Event Action)
    → Session UserProgressData Text
run_sessions parse stringify is_empty merge es =
    run default_progress act merge (get_item parse stringify is_empty)
      (set_item parse stringify is_empty) es fresh

-- Where JSON.parse gives back the states that JSON.stringify printed, as texts that are not empty,
-- and a state is merged as a whole, or stays where there is nothing to merge: the progress that began
-- with an empty storage is at each time the one that the actions alone give, whatever new sessions
-- and rehydrations come between them; and no hint is on record twice.
pub run_sessions-replay :
    {Text : Type 0} (parse : Text → Option Json) (stringify : Json → Text) (is_empty : Text → Bool)
    (merge : UserProgressData → Option UserProgressData → UserProgressData)
    (es : List (Event Action))
    → ((d : UserProgressData) → parse (stringify (to_json d)) ≡ some (to_json d))
    → ((d : UserProgressData) → is_empty (stringify (to_json d)) ≡ false)
    → ((c : UserProgressData) → merge c none ≡ c)
    → ((c d : UserProgressData) → merge c (some d) ≡ d)
    → ((run_sessions parse stringify is_empty merge es).state ≡ replay act es default_progress)
      × AreHints (run_sessions parse stringify is_empty merge es).state.hints_shown
unfolding get_item
run_sessions-replay parse stringify is_empty merge es back nonempty stays replaced =
    let e =
      run-replay default_progress act merge (get_item parse stringify is_empty)
        (set_item parse stringify is_empty) stays replaced
        (set_item-IsRestored parse stringify is_empty back nonempty merge) es fresh
        (stays default_progress, stays default_progress) in
    (
      e,
      subst (λ (d : UserProgressData). AreHints d.hints_shown) (sym e)
          (replay-AreHints es default_progress ([], refl, tt)),
    )
