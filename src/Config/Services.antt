-- ===== src/Config/Services.antt =====
-- The services that a configuration makes active.
use helix_memory.Prelude.{
  String, ◌≡◌, Bool, true, false, ◌&&◌, ◌||◌, ◌++◌, ltb, length, str_eq, is_seen, arith, eq_iff,
}
use helix_memory.Runtime.{Floats}
use helix_memory.Types.Provider.{succeeded}
use helix_memory.Config.{
  Config, validate, get_active_services, listed_if, has_cognee, has_mem0, has_letta,
}

abbrev pub known_mode : {fl : Floats} → Config fl → Bool
known_mode c = str_eq c.mode "local" || str_eq c.mode "cloud"

some_listed :
    (a b d : Bool)
    → ltb 0 (length (listed_if a "cognee" ++ listed_if b "mem0" ++ listed_if d "letta"))
      ≡ (a || b || d)
some_listed a b d = ground arith

pub one_mode : (mode : String) → str_eq mode "local" ≡ true → str_eq mode "cloud" ≡ false
one_mode mode h = rw ((eq_iff mode "local").0 h)

-- Validate accepts a configuration exactly if its mode is local or cloud and at least one service
-- is active.
pub validate-active :
    {fl : Floats} (c : Config fl)
    → succeeded (validate c) ≡ (known_mode c && ltb 0 (length (get_active_services c)))
unfolding validate get_active_services
validate-active c =
    ground (arith, some_listed (has_cognee c) (has_mem0 c) (has_letta c), one_mode c.mode)

seen_listed :
    (s : String) (a b d : Bool)
    → is_seen s (listed_if a "cognee" ++ listed_if b "mem0" ++ listed_if d "letta")
      ≡ (str_eq "cognee" s && a || str_eq "mem0" s && b || str_eq "letta" s && d)
seen_listed s a b d = ground arith

pub get_active_services_lem :
    {fl : Floats} (c : Config fl) (s : String)
    → is_seen s (get_active_services c) ≡ (
        str_eq "cognee" s && has_cognee c
        || str_eq "mem0" s && has_mem0 c
        || str_eq "letta" s && has_letta c)
unfolding get_active_services
get_active_services_lem c s = seen_listed s (has_cognee c) (has_mem0 c) (has_letta c)
