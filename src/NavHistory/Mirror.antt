-- ===== src/NavHistory/Mirror.antt =====
-- The mirror against the browser's history: entries behind the current one, and entries ahead of it.
use yanta.Prelude.{ℕ, ◌+◌, ◌≡◌, refl, Bool, true, false, ltb, List, [], ◌∷◌, String, length, arith}
use yanta.NavHistory.{
  NavHistory, nav_start, record_push, record_pop_to, select_can_go_back, select_can_go_forward,
}

-- The browser's stack: the pages behind, nearest first, the current page, the pages ahead.
pub record Browser : Type 0 where
  pub behind : List String
  pub here : String
  pub ahead : List String

-- `history.pushState` drops the pages ahead; back and forward move one page, or do nothing.
pub data Event : Type 0 where
  push : (page : String) → Event
  back : Event
  forward : Event

abbrev pub back_from : List String → String → List String → Browser
back_from [] here ahead = record { behind = []; here = here; ahead = ahead }
back_from (p ∷ ps) here ahead = record { behind = ps; here = p; ahead = here ∷ ahead }

abbrev pub forward_from : List String → String → List String → Browser
forward_from behind here [] = record { behind = behind; here = here; ahead = [] }
forward_from behind here (p ∷ ps) = record { behind = here ∷ behind; here = p; ahead = ps }

abbrev pub browse : Event → Browser → Browser
browse (push page) b = record { behind = b.here ∷ b.behind; here = page; ahead = [] }
browse back b = back_from b.behind b.here b.ahead
browse forward b = forward_from b.behind b.here b.ahead

-- The calls the application makes of the mirror: `record_push` beside `pushState`, and
-- `record_pop_to` with the index that the entry arrived at carries.
abbrev pub mirror : Event → Browser → NavHistory → NavHistory
mirror (push page) b s = record_push s
mirror back b s = record_pop_to (length b.behind) s
mirror forward b s = record_pop_to (length b.behind) s

pub record Tab : Type 0 where
  pub browser : Browser
  pub history : NavHistory

abbrev pub fresh_tab : String → Tab
fresh_tab page = record {
  browser = record { behind = []; here = page; ahead = [] };
  history = nav_start;
}

unfoldable pub follow : List Event → Tab → Tab
follow [] t = t
follow (e ∷ es) t =
    let b = browse e t.browser in follow es (record { browser = b; history = mirror e b t.history })

pub record Mirrors (b : Browser) (s : NavHistory) : Type 0 where
  pub at : s.index ≡ length b.behind
  pub frontier : s.max_index ≡ length b.behind + length b.ahead

mirror-back :
    (behind : List String) (here : String) (ahead : List String) (s : NavHistory)
    → Mirrors (record { behind = behind; here = here; ahead = ahead }) s
    → let b' = back_from behind here ahead in Mirrors b' (record_pop_to (length b'.behind) s)
unfolding record_pop_to
mirror-back [] here ahead s m = record { at = refl; frontier = omega (arith, m.frontier) }
mirror-back (p ∷ ps) here ahead s m = record { at = refl; frontier = omega (arith, m.frontier) }

mirror-forward :
    (behind : List String) (here : String) (ahead : List String) (s : NavHistory)
    → Mirrors (record { behind = behind; here = here; ahead = ahead }) s
    → let b' = forward_from behind here ahead in Mirrors b' (record_pop_to (length b'.behind) s)
unfolding record_pop_to
mirror-forward behind here [] s m = record { at = refl; frontier = omega (arith, m.frontier) }
mirror-forward behind here (p ∷ ps) s m = record { at = refl; frontier = omega (arith, m.frontier) }

mirror-step :
    (e : Event) (b : Browser) (s : NavHistory)
    → Mirrors b s
    → Mirrors (browse e b) (mirror e (browse e b) s)
unfolding record_push
mirror-step (push page) b s m = record { at = omega (arith, m.at); frontier = omega (arith, m.at) }
mirror-step back b s m = mirror-back b.behind b.here b.ahead s m
mirror-step forward b s m = mirror-forward b.behind b.here b.ahead s m

follow-Mirrors :
    (es : List Event) (t : Tab)
    → Mirrors t.browser t.history
    → Mirrors (follow es t).browser (follow es t).history
unfolding follow
follow-Mirrors [] t m = m
follow-Mirrors (e ∷ es) t m =
    follow-Mirrors es
      (record { browser = browse e t.browser; history = mirror e (browse e t.browser) t.history })
      (mirror-step e t.browser t.history m)

abbrev pub has_page : List String → Bool
has_page [] = false
has_page (p ∷ ps) = true

ltb-length : (ps : List String) (n : ℕ) → ltb n (n + length ps) ≡ has_page ps
ltb-length [] n = ground arith
ltb-length (p ∷ ps) n = ground arith

ltb-length_of_none : (ps : List String) → ltb 0 (length ps) ≡ has_page ps
ltb-length_of_none [] = ground arith
ltb-length_of_none (p ∷ ps) = ground arith

-- After any navigations from a fresh history, the back button is enabled exactly when there is a
-- page behind, and the forward button exactly when there is a page ahead.
pub buttons_lem :
    (es : List Event) (page : String)
    → (select_can_go_back (follow es (fresh_tab page)).history
        ≡ has_page (follow es (fresh_tab page)).browser.behind)
      × (select_can_go_forward (follow es (fresh_tab page)).history
          ≡ has_page (follow es (fresh_tab page)).browser.ahead)
unfolding select_can_go_back select_can_go_forward
buttons_lem es page =
    let m = follow-Mirrors es (fresh_tab page) (record { at = refl; frontier = refl }) in
    (
      rw (m.at) (ltb-length_of_none (follow es (fresh_tab page)).browser.behind),
      rw (m.at, m.frontier)
          (ltb-length (follow es (fresh_tab page)).browser.ahead
            (length (follow es (fresh_tab page)).browser.behind)),
    )
