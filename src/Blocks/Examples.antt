-- ===== src/Blocks/Examples.antt =====
-- A paragraph that holds a drawing of an unknown kind, and a heading as the editor fills it in.
use yanta.Prelude.{◌≡◌, refl, Bool, Option, none, some, String, List, [], ◌∷◌, arith, eq_iff}
use yanta.Blocks.{
  Block, single, parent, Blocks, nil, cons, Fields, text, sanitize_unknown_blocks,
  restore_unknown_blocks,
}
use yanta.Blocks.Quarantine.{ReadsBack, AllRestorable, restore-sanitize_unknown_blocks}
use yanta.Blocks.Hashing.{done, kept, added, FieldsFilled}

abbrev of_kind : String → Fields Bool
of_kind kind = record { id = none; kind = some kind; props = none; content = none }

abbrev drawing : Block Bool
drawing = single (of_kind "drawing")

abbrev document : Blocks Bool
document = cons (parent (of_kind "paragraph") (cons drawing nil)) nil

abbrev write_drawing : Block Bool → String
write_drawing b = "{\"type\":\"drawing\"}"

abbrev read_drawing : String → Option (Block Bool)
read_drawing s = some drawing

abbrev known_kinds : List String
known_kinds = "paragraph" ∷ "heading" ∷ []

document-AllRestorable : AllRestorable write_drawing read_drawing known_kinds document
unfolding AllRestorable
document-AllRestorable = ((refl, (λ h. cc), ((refl, (λ h. drawing-ReadsBack)), tt)), tt)
  where
    drawing-ReadsBack : ReadsBack write_drawing read_drawing drawing
    drawing-ReadsBack = record {
      same = refl;
      written = ground (arith, eq_iff "{\"type\":\"drawing\"}" "");
    }

restore-sanitize_unknown_blocks_example :
    restore_unknown_blocks write_drawing read_drawing
      (sanitize_unknown_blocks write_drawing read_drawing known_kinds document)
    ≡ document
restore-sanitize_unknown_blocks_example =
    restore-sanitize_unknown_blocks write_drawing read_drawing known_kinds document
      document-AllRestorable

abbrev heading : Fields Bool
heading = record (of_kind "heading") { props = some (("level", text "2") ∷ []) }

abbrev filled_heading : Fields Bool
filled_heading = record (of_kind "heading") {
  id = some "b1";
  props =
      some
        (("textColor", text "default") ∷ ("level", text "2") ∷ ("textAlignment", text "left") ∷ []);
}

heading_filled : FieldsFilled heading filled_heading
heading_filled = record {
  same_kind = refl;
  same_content = refl;
  filled =
      added "textColor" (text "default") refl
        (kept ("level", text "2") (added "textAlignment" (text "left") refl done));
}
