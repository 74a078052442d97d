-- ===== src/Json.antt =====
-- JSON values, as JSON.parse gives them; numbers are natural ones. The lists inside are data types
-- of the same block.
use yanta.Prelude.{
  ℕ, Bool, Option, none, some, String, str_eq, List, [], ◌∷◌, ap, refl, ◌≡◌, if◌then◌else◌,
}

mutual
  pub data Json : Type 0 where
    null : Json
    bool : Bool → Json
    num : ℕ → Json
    str : String → Json
    arr : Elements → Json
    obj : Members → Json

  pub data Elements : Type 0 where
    end : Elements
    item : Json → Elements → Elements

  pub data Members : Type 0 where
    last : Members
    member : String → Json → Members → Members

-- `value[key]` of an object.
abbrev pub get : String → Members → Option Json
get k last = none
get k (member j v m) = let rest = get k m in if str_eq j k then some v else rest

abbrev pub elements : Elements → List Json
elements end = []
elements (item v l) = v ∷ elements l

abbrev pub of_list : List Json → Elements
of_list [] = end
of_list (v ∷ l) = item v (of_list l)

pub elements-of_list : (l : List Json) → elements (of_list l) ≡ l
elements-of_list [] = refl
elements-of_list (v ∷ l) = ap (λ r. v ∷ r) (elements-of_list l)

-- `typeof v === "number"`, "string", "boolean", and `Array.isArray`, with a value for the others.
abbrev pub number_or : ℕ → Option Json → ℕ
number_or n (some (num m)) = m
number_or n other = n

abbrev pub array_or_empty : Option Json → List Json
array_or_empty (some (arr l)) = elements l
array_or_empty other = []
