-- ===== src/Commands/Order.antt =====
-- The palette's order is a stable sort by score.
use yanta.Prelude.{
  ◌≡◌, refl, ap, ◌∙◌, ℕ, zero, suc, ◌≤◌, ◌<◌, leb, Bool, true, String, List, [], ◌∷◌, map, All,
  All-take, All-filter, All-sort_by, IsSorted, sort_by, sort_by-IsSorted, sort_by-perm, Agree,
  map-sort_by, lookup, filter, take, length, length-take, arith,
}
use mathlib.Core.List.{Perm}
use yanta.Commands.{
  CommandUsageData, CommandOption, CommandWithScore, calculate_usage_score, with_scores, before,
  sort_commands_by_usage, week_ms, used_within, used_later, get_recently_used_commands,
}

-- The first command has the higher score, or the same.
abbrev pub no_lower : List (String × CommandUsageData) → ℕ → CommandOption → CommandOption → Bool
no_lower usage now a b =
    leb (calculate_usage_score b.id usage now) (calculate_usage_score a.id usage now)

module _ (usage : List (String × CommandUsageData)) (now : ℕ) where
  with_scores-after :
      (x : CommandWithScore) (index : ℕ) (commands : List CommandOption)
      → x.score ≡ calculate_usage_score x.command.id usage now
      → x.original_index < index
      → All
          (λ y. before x y ≡ no_lower usage now x.command y.command)
          (with_scores usage now index commands)
  with_scores-after x index [] h k = tt
  with_scores-after x index (c ∷ commands) h k =
      (ground (arith, h), with_scores-after x (suc index) commands h (omega arith))

  with_scores-Agree :
      (index : ℕ) (commands : List CommandOption)
      → Agree before (no_lower usage now) (λ c. c.command) (with_scores usage now index commands)
  with_scores-Agree index [] = tt
  with_scores-Agree index (c ∷ commands) = (
    with_scores-after
        (record {
          command = c;
          score = calculate_usage_score c.id usage now;
          original_index = index;
        })
        (suc index) commands refl (omega arith),
    with_scores-Agree (suc index) commands,
  )

  map-with_scores :
      (index : ℕ) (commands : List CommandOption)
      → map (λ c. c.command) (with_scores usage now index commands) ≡ commands
  map-with_scores index [] = refl
  map-with_scores index (c ∷ commands) = ap (λ l. c ∷ l) (map-with_scores (suc index) commands)

  pub sort_commands_by_usage_stable :
      (commands : List CommandOption)
      → sort_commands_by_usage commands usage now ≡ sort_by (no_lower usage now) commands
  unfolding sort_commands_by_usage
  sort_commands_by_usage_stable commands =
      map-sort_by before (no_lower usage now) (λ c. c.command) (with_scores usage now 0 commands)
        (with_scores-Agree 0 commands)
      ∙ ap (sort_by (no_lower usage now)) (map-with_scores 0 commands)

  -- The palette shows each command as often as it was given, no command before one with a higher score.
  pub sort_commands_by_usage_lem :
      (commands : List CommandOption)
      → Perm (sort_commands_by_usage commands usage now) commands
        × IsSorted (no_lower usage now) (sort_commands_by_usage commands usage now)
  sort_commands_by_usage_lem commands = rw (sort_commands_by_usage_stable commands) (
    sort_by-perm (no_lower usage now) commands,
    sort_by-IsSorted (no_lower usage now) (λ x y h. ground arith) (λ x y z h k. ground arith)
        commands,
  )

  IsSorted-take :
      (n : ℕ) (commands : List CommandOption)
      → IsSorted (used_later usage) commands
      → IsSorted (used_later usage) (take n commands)
  IsSorted-take zero commands h = tt
  IsSorted-take (suc n) [] h = tt
  IsSorted-take (suc n) (c ∷ commands) (h, k) =
      (All-take (λ d. used_later usage c d ≡ true) n commands h, IsSorted-take n commands k)

  -- The palette's recent commands are at most as many as the limit, were all used within a week, and
  -- stand with the latest used first.
  pub get_recently_used_commands_lem :
      (commands : List CommandOption) (limit : ℕ)
      → (length (get_recently_used_commands commands usage limit now) ≤ limit)
        × All
            (λ c. used_within week_ms now (lookup c.id usage) ≡ true)
            (get_recently_used_commands commands usage limit now)
        × IsSorted (used_later usage) (get_recently_used_commands commands usage limit now)
  unfolding get_recently_used_commands
  get_recently_used_commands_lem commands limit =
      let sorted = sort_by (used_later usage) (filter recent commands) in
      (
        omega (arith, length-take limit sorted),
        All-take (λ c. recent c ≡ true) limit sorted
            (All-sort_by (used_later usage) (λ c. recent c ≡ true) (filter recent commands)
              (All-filter recent commands)),
        IsSorted-take limit sorted (
            sort_by-IsSorted (used_later usage) (λ x y h. ground arith) (λ x y z h k. ground arith)
              (filter recent commands)),
      )
    where
      recent : CommandOption → Bool
      recent c = used_within week_ms now (lookup c.id usage)
