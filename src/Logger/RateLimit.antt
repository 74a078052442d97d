-- ===== src/Logger/RateLimit.antt =====
-- The same warning is not sent twice within ten seconds, and the record of what was sent stays small.
use yanta.Prelude.{
  length-insert-le, ◌≡◌, refl, ap, ◌∙◌, ℕ, ◌+◌, ◌≤◌, ◌<◌, ltb, true, false, Bool-cases, inl, inr,
  some, String, str_eq, eq_iff, List, [], ◌∷◌, length, lookup, lookup-insert, arith, if◌then◌else◌,
}
use yanta.Logger.{
  LogLevel, rate_limit_window_ms, is_unlimited, is_too_soon, make_room, is_rate_limited,
}

-- A message that asks to be sent: its level, its signature and the time.
pub record Request : Type 0 where
  pub level : LogLevel
  pub signature : String
  pub time : ℕ

abbrev pub times_after : List Request → List (String × ℕ) → List (String × ℕ)
times_after [] sent_at = sent_at
times_after (r ∷ requests) sent_at =
    times_after requests (is_rate_limited r.level r.signature r.time sent_at).1

length-make_room-le : (sent_at : List (String × ℕ)) → length (make_room sent_at) ≤ 500
length-make_room-le sent_at = elim (Bool-cases (ltb 500 (length sent_at))) [
  | inl full ↦ rw full (omega arith)
  | inr room ↦ rw room (ground arith)
]

length-is_rate_limited-le :
    (level : LogLevel) (signature : String) (now : ℕ) (sent_at : List (String × ℕ))
    → length sent_at ≤ 501
    → length (is_rate_limited level signature now sent_at).1 ≤ 501
unfolding is_rate_limited
length-is_rate_limited-le level signature now sent_at h = elim (Bool-cases (is_unlimited level)) [
  | inl unlimited ↦ rw unlimited h
  | inr limited ↦ elim (Bool-cases (is_too_soon now (lookup signature sent_at))) [
    | inl soon ↦ rw (limited, soon) h
    | inr late ↦
        rw (limited, late)
          (omega (
            arith,
            length-insert-le signature now (make_room sent_at),
            length-make_room-le sent_at,
          ))
  ]
]

length-times_after :
    (requests : List Request) (sent_at : List (String × ℕ))
    → length sent_at ≤ 501
    → length (times_after requests sent_at) ≤ 501
length-times_after [] sent_at h = h
length-times_after (r ∷ requests) sent_at h =
    length-times_after requests (is_rate_limited r.level r.signature r.time sent_at).1
      (length-is_rate_limited-le r.level r.signature r.time sent_at h)

-- However many messages ask to be sent, the times of at most 501 signatures are kept.
pub length-times_after-le : (requests : List Request) → length (times_after requests []) ≤ 501
length-times_after-le requests = length-times_after requests [] (omega arith)

-- No message in between makes the record start over.
abbrev pub HasRoom : List Request → List (String × ℕ) → Type 0
HasRoom [] sent_at = Unit
HasRoom (r ∷ requests) sent_at =
    (length sent_at ≤ 500) × HasRoom requests (is_rate_limited r.level r.signature r.time sent_at).1

-- All of the messages come within the window after a time.
abbrev pub Within : ℕ → List Request → Type 0
Within time [] = Unit
Within time (r ∷ requests) =
    (time ≤ r.time) × (r.time < time + rate_limit_window_ms) × Within time requests

lookup-is_rate_limited :
    (level : LogLevel) (signature : String) (now : ℕ) (s : String) (time : ℕ)
    (sent_at : List (String × ℕ))
    → lookup s sent_at ≡ some time
    → 0 < time
    → time ≤ now
    → now < time + rate_limit_window_ms
    → length sent_at ≤ 500
    → lookup s (is_rate_limited level signature now sent_at).1 ≡ some time
unfolding is_rate_limited
lookup-is_rate_limited level signature now s time sent_at h pos le lt room =
    elim (Bool-cases (is_unlimited level)) [
      | inl unlimited ↦ rw unlimited h
      | inr limited ↦ elim (Bool-cases (is_too_soon now (lookup signature sent_at))) [
        | inl soon ↦ rw (limited, soon) h
        | inr late ↦
            rw (limited, late, has_room) (lookup-insert signature s now sent_at ∙ other late)
      ]
    ]
  where
    has_room : ltb 500 (length sent_at) ≡ false
    has_room = ground arith

    soon : is_too_soon now (some time) ≡ true
    soon = ground arith

    other :
        is_too_soon now (lookup signature sent_at) ≡ false
        → (if str_eq signature s then some now else lookup s sent_at) ≡ some time
    other late = elim (Bool-cases (str_eq signature s)) [
      | inr different ↦ rw different h
      | inl same ↦ absurd (
          cc (
            late,
            soon,
            ap (λ k. is_too_soon now (lookup k sent_at)) ((eq_iff signature s).0 same),
            h,
          ))
    ]

-- A warning or an error that was sent at a time other than 0 is held back when it comes again within
-- ten seconds, whatever was logged in between, unless more than 500 signatures were on record at some
-- point and it started over.
pub is_rate_limited_again :
    (requests : List Request) (level : LogLevel) (signature : String) (time now : ℕ)
    (sent_at : List (String × ℕ))
    → is_unlimited level ≡ false
    → lookup signature sent_at ≡ some time
    → 0 < time
    → Within time requests
    → HasRoom requests sent_at
    → time ≤ now
    → now < time + rate_limit_window_ms
    → (is_rate_limited level signature now (times_after requests sent_at)).0 ≡ true
unfolding is_rate_limited
is_rate_limited_again [] level signature time now sent_at limited h pos w room le lt =
    rw (limited, h, soon) refl
  where
    soon : is_too_soon now (some time) ≡ true
    soon = ground arith
is_rate_limited_again (r ∷ requests) level signature time now sent_at limited h pos (le', lt', w)
      (room, rooms) le lt =
    is_rate_limited_again requests level signature time now
      (is_rate_limited r.level r.signature r.time sent_at).1 limited
      (lookup-is_rate_limited r.level r.signature r.time signature time sent_at h pos le' lt' room)
      pos w rooms le lt
