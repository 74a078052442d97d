-- ===== src/DocumentSort/Order.antt =====
-- The order of the documents, frontend/src/dashboard/hooks/useDocumentSort.ts.
use mathlib.Core.List.{Perm}
use yanta.Prelude.{
  ℕ, Bool, true, false, String, List, IsSorted, sort_by-perm, sort_by-IsSorted, arith, ◌≡◌,
}
use yanta.DocumentSort.{
  DocumentSortField, updated, created, title, SortDirection, asc, desc, SortConfig, Document,
  ascending, in_order, sorted_documents,
}

module _ (title_le : String → String → Bool) (time : String → ℕ)
    (title_total : (x y : String) → title_le x y ≡ false → title_le y x ≡ true)
    (title_trans : (x y z : String)
      → title_le x y ≡ true
      → title_le y z ≡ true
      → title_le x z ≡ true) where
  ascending_total :
      (f : DocumentSortField) (a b : Document)
      → ascending title_le time f a b ≡ false
      → ascending title_le time f b a ≡ true
  ascending_total title a b h = title_total a.title b.title h
  ascending_total created a b h = ground (arith, h)
  ascending_total updated a b h = ground (arith, h)

  ascending_trans :
      (f : DocumentSortField) (a b c : Document)
      → ascending title_le time f a b ≡ true
      → ascending title_le time f b c ≡ true
      → ascending title_le time f a c ≡ true
  ascending_trans title a b c h k = title_trans a.title b.title c.title h k
  ascending_trans created a b c h k = ground (arith, h, k)
  ascending_trans updated a b c h k = ground (arith, h, k)

  in_order_total :
      (f : DocumentSortField) (d : SortDirection) (a b : Document)
      → in_order title_le time (record { field = f; direction = d }) a b ≡ false
      → in_order title_le time (record { field = f; direction = d }) b a ≡ true
  in_order_total f asc a b h = ascending_total f a b h
  in_order_total f desc a b h = ascending_total f b a h

  in_order_trans :
      (f : DocumentSortField) (d : SortDirection) (a b c : Document)
      → in_order title_le time (record { field = f; direction = d }) a b ≡ true
      → in_order title_le time (record { field = f; direction = d }) b c ≡ true
      → in_order title_le time (record { field = f; direction = d }) a c ≡ true
  in_order_trans f asc a b c h k = ascending_trans f a b c h k
  in_order_trans f desc a b c h k = ascending_trans f c b a k h

  -- Where `localeCompare` is a total and transitive order, the dashboard shows all documents, each
  -- as often as it is there, and in the order of the chosen field and direction.
  pub sorted_documents-IsSorted :
      (c : SortConfig) (docs : List Document)
      → Perm (sorted_documents title_le time c docs) docs
        × IsSorted (in_order title_le time c) (sorted_documents title_le time c docs)
  unfolding sorted_documents
  sorted_documents-IsSorted c docs = (
    sort_by-perm (in_order title_le time c) docs,
    sort_by-IsSorted (in_order title_le time c) (in_order_total c.field c.direction)
        (in_order_trans c.field c.direction) docs,
  )
