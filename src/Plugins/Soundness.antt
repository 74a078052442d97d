-- ===== src/Plugins/Soundness.antt =====
-- What a plugin has contributed, and whether it is shown as active, follow whether it is loaded.
use yanta.Prelude.{
  ℕ, ◌≡◌, refl, sym, ◌∙◌, Bool, true, false, Option, none, some, List, String, str_eq, lookup,
  insert, erase, lookup-insert, lookup-erase, Bool-cases, inl, inr, eq_iff, eq_refl,
}
use mathlib.Core.Path.{subst}
use yanta.Plugins.{
  PluginCapability, PluginDefinition, PluginRuntimeRecord, PluginHost, is_there, previous, patched,
  set_runtime,
}

abbrev pub shows_active : Option PluginRuntimeRecord → Bool
shows_active none = false
shows_active (some r) = r.is_active

-- All but the runtime record of `id`.
pub record IsSoundBut (id : String) (h : PluginHost) : Type 0 where
  pub owned :
      (j : String)
      → is_there (lookup j h.contributed) ≡ true
      → is_there (lookup j h.cleanups) ≡ true
  pub known :
      (j : String) → is_there (lookup j h.runtime) ≡ true → is_there (lookup j h.definitions) ≡ true
  pub active_others :
      (j : String)
      → str_eq id j ≡ false
      → shows_active (lookup j h.runtime) ≡ true
      → is_there (lookup j h.cleanups) ≡ true

pub record IsSound (h : PluginHost) : Type 0 where
  pub owned :
      (j : String)
      → is_there (lookup j h.contributed) ≡ true
      → is_there (lookup j h.cleanups) ≡ true
  pub known :
      (j : String) → is_there (lookup j h.runtime) ≡ true → is_there (lookup j h.definitions) ≡ true
  pub active :
      (j : String)
      → shows_active (lookup j h.runtime) ≡ true
      → is_there (lookup j h.cleanups) ≡ true

there_of_active : (o : Option PluginRuntimeRecord) → shows_active o ≡ true → is_there o ≡ true
there_of_active none h = h
there_of_active (some r) h = refl

lookup-insert_here :
    {V : Type 0} (k j : String) (v : V) (m : List (String × V))
    → str_eq k j ≡ true
    → lookup j (insert k v m) ≡ some v
lookup-insert_here k j v m same = lookup-insert k j v m ∙ rw same refl

lookup-insert_other :
    {V : Type 0} (k j : String) (v : V) (m : List (String × V))
    → str_eq k j ≡ false
    → lookup j (insert k v m) ≡ lookup j m
lookup-insert_other k j v m other = lookup-insert k j v m ∙ rw other refl

lookup-erase_here :
    {V : Type 0} (k j : String) (m : List (String × V))
    → str_eq k j ≡ true
    → lookup j (erase k m) ≡ none
lookup-erase_here k j m same = lookup-erase k j m ∙ rw same refl

lookup-erase_other :
    {V : Type 0} (k j : String) (m : List (String × V))
    → str_eq k j ≡ false
    → lookup j (erase k m) ≡ lookup j m
lookup-erase_other k j m other = lookup-erase k j m ∙ rw other refl

pub there_of_insert :
    {V : Type 0} (k : String) (v : V) (m : List (String × V))
    → is_there (lookup k (insert k v m)) ≡ true
there_of_insert k v m =
    subst (λ o. is_there o ≡ true) (sym (lookup-insert_here k k v m (eq_refl k))) refl

nothing_there : {A P : Type 0} (o : Option A) → o ≡ none → is_there o ≡ true → P
nothing_there none e h = cc
nothing_there (some a) e h = cc

module _ (is_builtin : String → Bool) (compatible : String → ℕ → Bool) (major : Option ℕ) where
  module _ (id : String) (patch : PluginRuntimeRecord → PluginRuntimeRecord) (h : PluginHost)
      (v : IsSoundBut id h)
      (here : (r : PluginRuntimeRecord)
        → (patch r).is_active ≡ true
        → is_there (lookup id h.cleanups) ≡ true) where
    patched-known :
        (def : PluginDefinition) (j : String)
        → lookup id h.definitions ≡ some def
        → is_there (
            lookup j (
              insert id
                (patch (previous is_builtin compatible major def (lookup id h.runtime)))
                h.runtime))
          ≡ true
        → is_there (lookup j h.definitions) ≡ true
    patched-known def j e there = elim (Bool-cases (str_eq id j)) [
      | inl same ↦
          subst (λ k. is_there (lookup k h.definitions) ≡ true) ((eq_iff id j).0 same) (rw e refl)
      | inr other ↦
          v.known j
            (subst (λ o. is_there o ≡ true) (lookup-insert_other id j _ h.runtime other) there)
    ]

    patched-active :
        (def : PluginDefinition) (j : String)
        → shows_active (
            lookup j (
              insert id
                (patch (previous is_builtin compatible major def (lookup id h.runtime)))
                h.runtime))
          ≡ true
        → is_there (lookup j h.cleanups) ≡ true
    patched-active def j on = elim (Bool-cases (str_eq id j)) [
      | inl same ↦
          subst (λ k. is_there (lookup k h.cleanups) ≡ true) ((eq_iff id j).0 same)
            (here _
              (subst (λ o. shows_active o ≡ true) (lookup-insert_here id j _ h.runtime same) on))
      | inr other ↦
          v.active_others j other
            (subst (λ o. shows_active o ≡ true) (lookup-insert_other id j _ h.runtime other) on)
    ]

    unknown-active :
        (j : String)
        → lookup id h.definitions ≡ none
        → shows_active (lookup j h.runtime) ≡ true
        → is_there (lookup j h.cleanups) ≡ true
    unknown-active j e on = elim (Bool-cases (str_eq id j)) [
      | inl same ↦ nothing_there (lookup id h.definitions) e (
          subst (λ k. is_there (lookup k h.definitions) ≡ true) (sym ((eq_iff id j).0 same))
            (v.known j (there_of_active _ on)))
      | inr other ↦ v.active_others j other on
    ]

    patched-IsSound :
        (o : Option PluginDefinition)
        → lookup id h.definitions ≡ o
        → IsSound (patched is_builtin compatible major id patch o h)
    patched-IsSound none e = record {
      owned = v.owned;
      known = v.known;
      active = λ j on. unknown-active j e on;
    }
    patched-IsSound (some def) e = record {
      owned = v.owned;
      known = λ j there. patched-known def j e there;
      active = λ j on. patched-active def j on;
    }

    pub set_runtime-IsSound : IsSound (set_runtime is_builtin compatible major id patch h)
    unfolding set_runtime
    set_runtime-IsSound = patched-IsSound (lookup id h.definitions) refl

  -- A host that is sound but for what it says of one plugin.
  pub but-IsSoundBut : (id : String) (h : PluginHost) → IsSound h → IsSoundBut id h
  but-IsSoundBut id h v = record {
    owned = v.owned;
    known = v.known;
    active_others = λ j _ on. v.active j on;
  }

  pub inactive-IsSound :
      (id : String) (patch : PluginRuntimeRecord → PluginRuntimeRecord) (h : PluginHost)
      → ((r : PluginRuntimeRecord) → (patch r).is_active ≡ false)
      → IsSoundBut id h
      → IsSound (set_runtime is_builtin compatible major id patch h)
  inactive-IsSound id patch h off v =
      set_runtime-IsSound id patch h v
        (λ r on. nothing_there {A = String} none refl (sym (off r) ∙ on))

  -- The contributions of one plugin are dropped.
  pub dropped-IsSoundBut :
      (id : String) (h : PluginHost)
      → IsSound h
      → IsSoundBut id (record h { contributed = erase id h.contributed })
  dropped-IsSoundBut id h v = record {
    owned = λ j there. elim (Bool-cases (str_eq id j)) [
      | inl same ↦ nothing_there _ (lookup-erase_here id j h.contributed same) there
      | inr other ↦
          v.owned j
            (subst (λ o. is_there o ≡ true) (lookup-erase_other id j h.contributed other) there)
    ];
    known = v.known;
    active_others = λ j _ on. v.active j on;
  }

  -- The plugin is taken off the loaded ones.
  pub unloaded-IsSoundBut :
      (id : String) (h : PluginHost)
      → IsSound h
      → IsSoundBut id
          (record h { contributed = erase id h.contributed; cleanups = erase id h.cleanups })
  unloaded-IsSoundBut id h v = record {
    owned = λ j there. elim (Bool-cases (str_eq id j)) [
      | inl same ↦ nothing_there _ (lookup-erase_here id j h.contributed same) there
      | inr other ↦
          subst (λ o. is_there o ≡ true) (sym (lookup-erase_other id j h.cleanups other))
            (v.owned j
              (subst (λ o. is_there o ≡ true) (lookup-erase_other id j h.contributed other) there))
    ];
    known = v.known;
    active_others = λ j other on.
        subst (λ o. is_there o ≡ true) (sym (lookup-erase_other id j h.cleanups other))
          (v.active j on);
  }

  pub loaded-IsSoundBut :
      (id : String) (done : List PluginCapability) (own : Option Bool) (h : PluginHost)
      → IsSound h
      → IsSoundBut id (record h {
        contributed = insert id done h.contributed;
        cleanups = insert id own h.cleanups;
      })
  loaded-IsSoundBut id done own h v = record {
    owned = λ j there. elim (Bool-cases (str_eq id j)) [
      | inl same ↦
          subst (λ o. is_there o ≡ true) (sym (lookup-insert_here id j own h.cleanups same)) refl
      | inr other ↦
          subst (λ o. is_there o ≡ true) (sym (lookup-insert_other id j own h.cleanups other))
            (v.owned j (
              subst (λ o. is_there o ≡ true) (lookup-insert_other id j done h.contributed other)
                there))
    ];
    known = v.known;
    active_others = λ j other on.
        subst (λ o. is_there o ≡ true) (sym (lookup-insert_other id j own h.cleanups other))
          (v.active j on);
  }

  pub registered-IsSoundBut :
      (id : String) (def : PluginDefinition) (h : PluginHost)
      → IsSound h
      → IsSoundBut id (record h { definitions = insert id def h.definitions })
  registered-IsSoundBut id def h v = record {
    owned = v.owned;
    known = λ j there. elim (Bool-cases (str_eq id j)) [
      | inl same ↦
          subst (λ o. is_there o ≡ true) (sym (lookup-insert_here id j def h.definitions same)) refl
      | inr other ↦
          subst (λ o. is_there o ≡ true) (sym (lookup-insert_other id j def h.definitions other))
            (v.known j there)
    ];
    active_others = λ j _ on. v.active j on;
  }
