-- ===== src/I18n/Fallback.antt =====
-- Loading of the bundles, and the locales that a translation falls back to.
use helix_memory.Prelude.{
  String, ◌≡◌, refl, sym, ap, ap₂, ◌∙◌, subst, Bool-cases, inl, inr, List, [], ◌∷◌, ◌++◌, Option,
  none, some, Dict, lookup, str_eq, if◌then◌else◌,
}
use helix_memory.Runtime.{Floats}
use helix_memory.Types.Provider.{Result, ok, err}
use helix_memory.I18n.{
  Texts, File, BundleTranslator, find, find_in, try_locales, in_table, or_else,
  new_bundle_translator, listed, checked, with_default, one_or_none,
}

-- The translation of a key in one locale.
abbrev pub in_locale : BundleTranslator → (key locale : String) → Option String
in_locale b key locale = in_table key (lookup locale b.locales)

-- What is found for the locale itself, or else for its primary subtag.
abbrev pub for_subtag : BundleTranslator → (key : String) → Option String → Option String
for_subtag b key none = none
for_subtag b key (some tag) = in_locale b key tag

abbrev pub for_locale :
    {fl : Floats} → Texts fl → BundleTranslator → (locale key : String) → Option String
for_locale tx b locale key =
    or_else (in_locale b key locale) (for_subtag b key (tx.before_any locale "-_"))

or_else_assoc : {A : Type 0} (a b c : Option A) → or_else (or_else a b) c ≡ or_else a (or_else b c)
or_else_assoc none b c = refl
or_else_assoc (some x) b c = refl

or_else-none : {A : Type 0} (a : Option A) → or_else a none ≡ a
or_else-none none = refl
or_else-none (some x) = refl

find_in-append :
    (locales : Dict (Dict String)) (key : String) (xs ys : List String)
    → find_in locales key (xs ++ ys) ≡ or_else (find_in locales key xs) (find_in locales key ys)
unfolding find_in
find_in-append locales key [] ys = refl
find_in-append locales key (x ∷ xs) ys = rw (find_in-append locales key xs ys) (
    sym (
      or_else_assoc (in_table key (lookup x locales)) (find_in locales key xs)
        (find_in locales key ys)))

find_in_subtag :
    (b : BundleTranslator) (key : String) (tag : Option String)
    → find_in b.locales key (one_or_none tag) ≡ for_subtag b key tag
unfolding find_in
find_in_subtag b key none = refl
find_in_subtag b key (some tag) = or_else-none (in_locale b key tag)

find_in_one :
    (b : BundleTranslator) (key locale : String)
    → find_in b.locales key (locale ∷ []) ≡ in_locale b key locale
unfolding find_in
find_in_one b key locale = or_else-none (in_locale b key locale)

find_asked :
    (b : BundleTranslator) (key locale : String) (tag : Option String)
    → find_in b.locales key (locale ∷ one_or_none tag)
      ≡ or_else (in_locale b key locale) (for_subtag b key tag)
unfolding find_in
find_asked b key locale tag = ap (or_else (in_locale b key locale)) (find_in_subtag b key tag)

find_all :
    (b : BundleTranslator) (key locale : String) (tag : Option String) (d : String)
    → find_in b.locales key ((locale ∷ one_or_none tag) ++ d ∷ [])
      ≡ or_else (or_else (in_locale b key locale) (for_subtag b key tag)) (in_locale b key d)
find_all b key locale tag d =
    find_in-append b.locales key (locale ∷ one_or_none tag) (d ∷ [])
    ∙ ap₂ or_else (find_asked b key locale tag) (find_in_one b key d)

-- The default locale of a translator that was loaded has a table.
abbrev HasDefault : BundleTranslator → Type 0
HasDefault b = (table : Dict String) × (lookup b.default_locale b.locales ≡ some table)

abbrev LoadsDefault : Result BundleTranslator → Type 0
LoadsDefault (err e) = Unit {0}
LoadsDefault (ok b) = HasDefault b

module _ {fl : Floats} (tx : Texts fl) where
  find_lem :
      (b : BundleTranslator) (locale key : String)
      → find tx b locale key
        ≡ or_else
            (if str_eq locale "" then none else for_locale tx b locale key)
            (in_locale b key b.default_locale)
  unfolding find try_locales
  find_lem b locale key = elim (Bool-cases (str_eq locale "")) [
    | inl e ↦ rw e (find_in_one b key b.default_locale)
    | inr e ↦ rw e (find_all b key locale (tx.before_any locale "-_") b.default_locale)
  ]

  module _ (unmarshal : String → Result (Dict String)) where
    with_default-LoadsDefault :
        (d : String) (locales : Dict (Dict String)) (o : Option (Dict String))
        → lookup d locales ≡ o
        → LoadsDefault (with_default tx unmarshal d locales o)
    unfolding with_default
    with_default-LoadsDefault d locales none q = tt
    with_default-LoadsDefault d locales (some table) q = (table, q)

    checked-LoadsDefault :
        (d : String) (r : Result (Dict (Dict String))) → LoadsDefault (checked tx unmarshal d r)
    unfolding checked
    checked-LoadsDefault d (err e) = tt
    checked-LoadsDefault d (ok locales) =
        with_default-LoadsDefault d locales (lookup d locales) refl

    listed-LoadsDefault :
        (d : String) (dir : Result (List File)) → LoadsDefault (listed tx unmarshal d dir)
    unfolding listed
    listed-LoadsDefault d (err e) = tt
    listed-LoadsDefault d (ok files) = checked-LoadsDefault d _

    -- A translator that is loaded from the bundles has a table for its default locale, and finds for a
    -- key what the bundles hold for the locale that is asked for, unless it is empty, or else for its
    -- primary subtag, or else what that table holds.
    pub loaded_falls_back :
        (dir : Result (List File)) (default_locale : String) {b : BundleTranslator}
        (locale key : String)
        → new_bundle_translator tx unmarshal dir default_locale ≡ ok b
        → (table : Dict String) × (lookup b.default_locale b.locales ≡ some table)
          × (find tx b locale key
              ≡ or_else
                  (if str_eq locale "" then none else for_locale tx b locale key)
                  (lookup key table))
    unfolding new_bundle_translator
    loaded_falls_back dir default_locale {b} locale key h =
        let (table, q) : HasDefault b = subst LoadsDefault h (listed-LoadsDefault _ dir) in
        (
          table,
          q,
          find_lem b locale key
              ∙ ap (or_else (if str_eq locale "" then none else for_locale tx b locale key))
                  (ap (in_table key) q),
        )
