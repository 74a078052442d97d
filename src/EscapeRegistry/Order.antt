-- ===== src/EscapeRegistry/Order.antt =====
-- Handlers are registered and removed in any order: the ids stay apart, and Escape reaches the
-- handler registered last among those that are left.
use text.Mathlib.TextLemmas.{append_cancel_left}
use yanta.Prelude.{
  ℕ, suc, ◌<◌, ◌≡◌, refl, sym, ap, ◌∙◌, Bool, false, not, Option, some, List, [], ◌∷◌, ◌++◌, String,
  filter, last?, arith, eq_refl, str_eq-ne, Bool-cases, inl, inr, All, All-append, All-map,
}
use yanta.Decimal.Laws.{read, read-show}
use yanta.EscapeRegistry.{
  escape_id, RegistryEntry, EscapeRegistry, has_id, handled, no_handlers, push, remove, reset,
  dispatch_escape,
}

pub escape_id-injective : (n m : ℕ) → escape_id n ≡ escape_id m → n ≡ m
unfolding escape_id
escape_id-injective n m e =
    sym (read-show n) ∙ ap read (append_cancel_left "escape-" _ _ e) ∙ read-show m

pub data Call {ℓ} (E : Type ℓ) : Type ℓ where
  register : (handler : E → Option Bool) → Call E
  unregister : (id : String) → Call E
  clear : Call E

module _ {ℓ} {E : Type ℓ} where
  -- Made from a counter below `n`.
  record IsDrawn (n : ℕ) (item : RegistryEntry E) : Type ℓ where
    counter : ℕ
    drawn : item.id ≡ escape_id counter
    below : counter < n

  filter-keeps :
      (n : ℕ) (items : List (RegistryEntry E))
      → All (IsDrawn n) items
      → filter (λ item. not (has_id (escape_id n) item)) items ≡ items
  filter-keeps n [] h = refl
  filter-keeps n (item ∷ items) (d, h) =
      let other = str_eq-ne item.id (escape_id n) (λ same.
        absurd (omega (arith, d.below, escape_id-injective d.counter n (sym d.drawn ∙ same)))) in
      rw (other, filter-keeps n items h) refl

  filter-drops_last :
      (p : RegistryEntry E → Bool) (items : List (RegistryEntry E)) (item : RegistryEntry E)
      → p item ≡ false
      → filter p (items ++ (item ∷ [])) ≡ filter p items
  filter-drops_last p [] item h = rw h refl
  filter-drops_last p (x ∷ items) item h = rw (filter-drops_last p items item h) refl

  filter-All :
      (n : ℕ) (p : RegistryEntry E → Bool) (items : List (RegistryEntry E))
      → All (IsDrawn n) items
      → All (IsDrawn n) (filter p items)
  filter-All n p [] h = h
  filter-All n p (x ∷ items) (d, h) = elim (Bool-cases (p x)) [
    | inl kept ↦ rw kept (d, filter-All n p items h)
    | inr dropped ↦ rw dropped (filter-All n p items h)
  ]

  last?-append :
      (items : List (RegistryEntry E)) (item : RegistryEntry E)
      → last? (items ++ (item ∷ [])) ≡ some item
  last?-append [] item = refl
  last?-append (x ∷ []) item = refl
  last?-append (x ∷ y ∷ items) item = last?-append (y ∷ items) item

  unfoldable pub call : Call E → EscapeRegistry E → EscapeRegistry E
  call (register handler) s = (push handler s).1
  call (unregister id) s = remove id s
  call clear s = reset s

  unfoldable pub run : List (Call E) → EscapeRegistry E → EscapeRegistry E
  run [] s = s
  run (c ∷ cs) s = run cs (call c s)

  later : (n : ℕ) (item : RegistryEntry E) → IsDrawn n item → IsDrawn (suc n) item
  later n item d = record { counter = d.counter; drawn = d.drawn; below = omega (arith, d.below) }

  call-All :
      (c : Call E) (s : EscapeRegistry E)
      → All (IsDrawn s.next_id) s.stack
      → All (IsDrawn (call c s).next_id) (call c s).stack
  unfolding call push remove reset
  call-All (register handler) s h =
      All-append (IsDrawn (suc s.next_id)) s.stack _
        (All-map (IsDrawn s.next_id) (IsDrawn (suc s.next_id)) (later s.next_id) s.stack h)
        (record { counter = s.next_id; drawn = refl; below = omega arith }, tt)
  call-All (unregister id) s h = filter-All s.next_id _ s.stack h
  call-All clear s h = tt

  run-All :
      (cs : List (Call E)) (s : EscapeRegistry E)
      → All (IsDrawn s.next_id) s.stack
      → All (IsDrawn (run cs s).next_id) (run cs s).stack
  unfolding run
  run-All [] s h = h
  run-All (c ∷ cs) s h = run-All cs (call c s) (call-All c s h)

  -- After any calls, Escape on a registry with a handler just registered answers what that handler
  -- does, and removing the handler by the id it was given leaves the handlers from before.
  pub push-remove :
      (cs : List (Call E)) (handler : E → Option Bool) (e : E)
      → let s = run cs no_handlers in
        (dispatch_escape e (push handler s).1 ≡ handled (handler e))
        × ((remove (push handler s).0 (push handler s).1).stack ≡ s.stack)
  unfolding push remove dispatch_escape
  push-remove cs handler e =
      let s = run cs no_handlers in
      let item : RegistryEntry E = record { id = escape_id s.next_id; handler = handler } in
      (
        rw (last?-append s.stack item) refl,
        filter-drops_last _ s.stack item (rw (eq_refl (escape_id s.next_id)) refl)
            ∙ filter-keeps s.next_id s.stack (run-All cs no_handlers tt),
      )
