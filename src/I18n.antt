-- ===== src/I18n.antt =====
-- pkg/i18n: the translators (translator.go) and the embedded bundles (bundle.go). Package strings,
-- fmt.Sprintf, the embedded files and the reader of YAML are parameters. The lock of the package is
-- held through each operation, so an operation is one step.
pub mod Fallback
use helix_memory.Prelude.{
  ℕ, String, Bool, true, false, not, ◌&&◌, ◌||◌, List, [], ◌∷◌, ◌++◌, Option, none, some, Dict,
  lookup, insert, str_eq, if◌then◌else◌, map,
}
use helix_memory.Prelude.Int.{ℤ, pos, negsuc}
use helix_memory.Runtime.{Floats}
use helix_memory.Types.Provider.{Error, Result, ok, err}

-- The values that the program passes to a format.
pub data Arg (fl : Floats) : Type 0 where
  text : String → Arg fl
  int : ℤ → Arg fl
  float : fl.F64 → Arg fl
  duration : ℤ → Arg fl
  error : Error → Arg fl

pub record Translator (fl : Floats) : Type 0 where
  pub translate : (locale key : String) → List (Arg fl) → String

abbrev pub bundle_prefix : String
bundle_prefix = "helixmemory_"

-- strings.TrimPrefix, strings.HasSuffix, strings.TrimSuffix, `s[:i]` at the first of the characters
-- (`none` where strings.IndexAny gives 0 or less), and fmt.Sprintf.
pub record Texts (fl : Floats) : Type 0 where
  pub trim_prefix : (s prefix : String) → String
  pub has_suffix : (s suffix : String) → Bool
  pub trim_suffix : (s suffix : String) → String
  pub before_any : (s chars : String) → Option String
  pub sprintf : String → List (Arg fl) → String

-- An entry of the embedded directory: its name, whether it is a directory, and what reading it gives.
pub record File : Type 0 where
  pub name : String
  pub is_dir : Bool
  pub content : Result String

pub record BundleTranslator : Type 0 where
  pub default_locale : String
  pub locales : Dict (Dict String)

unfoldable pub noop : {fl : Floats} → Texts fl → Translator fl
noop tx = record { translate = λ locale key args. tx.trim_prefix key bundle_prefix }

abbrev pub one_or_none : Option String → List String
one_or_none none = []
one_or_none (some tag) = tag ∷ []

-- The locales that a lookup tries: the one asked for, its primary subtag, and the default.
unfoldable pub try_locales :
    {fl : Floats} → Texts fl → (default_locale locale : String) → List String
try_locales tx default_locale locale =
    let asked = locale ∷ one_or_none (tx.before_any locale "-_") in
    (if str_eq locale "" then [] else asked) ++ default_locale ∷ []

-- `table[key]` of a locale that may be missing.
abbrev pub in_table : (key : String) → Option (Dict String) → Option String
in_table key none = none
in_table key (some table) = lookup key table

abbrev pub or_else : {A : Type 0} → Option A → Option A → Option A
or_else none b = b
or_else (some a) b = some a

unfoldable pub find_in : Dict (Dict String) → (key : String) → List String → Option String
unfolding lookup
find_in locales key [] = none
find_in locales key (loc ∷ rest) =
    or_else (in_table key (lookup loc locales)) (find_in locales key rest)

unfoldable pub find :
    {fl : Floats} → Texts fl → BundleTranslator → (locale key : String) → Option String
unfolding find_in try_locales
find tx b locale key = find_in b.locales key (try_locales tx b.default_locale locale)

abbrev pub rendered :
    {fl : Floats} → Texts fl → (key : String) → List (Arg fl) → Option String → String
rendered tx key args none = tx.trim_prefix key bundle_prefix
rendered tx key [] (some format) = format
rendered tx key (a ∷ args) (some format) = tx.sprintf format (a ∷ args)

-- `Translate` of a BundleTranslator.
unfoldable pub translate :
    {fl : Floats} → Texts fl → BundleTranslator → (locale key : String) → List (Arg fl) → String
unfolding find
translate tx b locale key args = rendered tx key args (find tx b locale key)

abbrev pub bundled : {fl : Floats} → Texts fl → BundleTranslator → Translator fl
bundled tx b = record { translate = translate tx b }

module _ {fl : Floats} (tx : Texts fl) (unmarshal : String → Result (Dict String)) where
  put_table :
      (locale : String) → Result (Dict String) → Dict (Dict String) → Result (Dict (Dict String))
  unfolding insert
  put_table locale (err e) locales = err "parse bundle"
  put_table locale (ok table) locales = ok (insert locale table locales)

  put_file : (locale : String) → Result String → Dict (Dict String) → Result (Dict (Dict String))
  unfolding put_table
  put_file locale (err e) locales = err "read bundle"
  put_file locale (ok raw) locales = put_table locale (unmarshal raw) locales

  unfoldable pub load_file : File → Dict (Dict String) → Result (Dict (Dict String))
  unfolding put_file
  load_file f locales =
      if f.is_dir || not (tx.has_suffix f.name ".yaml")
      then ok locales
      else put_file (tx.trim_suffix f.name ".yaml") f.content locales

  -- The loop over the files of the bundle; the first error ends it.
  unfoldable pub load_files : List File → Result (Dict (Dict String)) → Result (Dict (Dict String))
  unfolding load_file
  load_files [] locales = locales
  load_files (f ∷ fs) (err e) = err e
  load_files (f ∷ fs) (ok locales) = load_files fs (load_file f locales)

  with_default :
      (default_locale : String)
      → Dict (Dict String)
      → Option (Dict String)
      → Result BundleTranslator
  with_default default_locale locales none = err "default locale has no bundle file"
  with_default default_locale locales (some table) =
      ok (record { default_locale = default_locale; locales = locales })

  checked : (default_locale : String) → Result (Dict (Dict String)) → Result BundleTranslator
  unfolding with_default lookup
  checked default_locale (err e) = err e
  checked default_locale (ok locales) =
      with_default default_locale locales (lookup default_locale locales)

  listed : (default_locale : String) → Result (List File) → Result BundleTranslator
  unfolding checked load_files
  listed default_locale (err e) = err "read embedded bundle dir"
  listed default_locale (ok files) = checked default_locale (load_files files (ok []))

  unfoldable pub new_bundle_translator :
      Result (List File) → (default_locale : String) → Result BundleTranslator
  unfolding listed
  new_bundle_translator dir default_locale =
      listed (if str_eq default_locale "" then "en" else default_locale) dir

  abbrev pub or_noop : Result BundleTranslator → Translator fl
  unfolding noop
  or_noop (err e) = noop tx
  or_noop (ok b) = bundled tx b

  unfoldable pub default_translator : Result (List File) → Translator fl
  unfolding new_bundle_translator noop
  default_translator dir = or_noop (new_bundle_translator dir "en")

  abbrev pub or_default : Result (List File) → Option (Translator fl) → Translator fl
  unfolding default_translator
  or_default dir none = default_translator dir
  or_default dir (some t) = t

  -- The package's translator after Set, and the one before, which Set returns.
  unfoldable pub set :
      Result (List File)
      → (active : Translator fl) → Option (Translator fl)
      → Translator fl × Translator fl
  unfolding default_translator
  set dir active t = (or_default dir t, active)

-- `T`, at the translator that is registered.
unfoldable pub t :
    {fl : Floats} → (active : Translator fl) → (locale key : String) → List (Arg fl) → String
t active locale key args = active.translate locale key args
