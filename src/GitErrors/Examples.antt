-- ===== src/GitErrors/Examples.antt =====
-- A rejected push.
use yanta.Prelude.{◌≡◌, refl, List, String, take}
use yanta.GitErrors.{Rule, includes, rules, parse_git_error}

abbrev rejected : String
rejected = "git: NOT_A_REPO"

abbrev first_two : List Rule
first_two = take 2 rules

kind_test : (parse_git_error rejected).kind ≡ "CONFIG"
unfolding parse_git_error includes
kind_test = refl
