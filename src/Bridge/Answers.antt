-- ===== src/Bridge/Answers.antt =====
-- What the bridge answers, and when it asks the provider.
use helix_memory.Prelude.{
  ◌≡◌, refl, String, Bool, true, false, not, ◌&&◌, map, Option, none, some, str_eq, is_seen,
  Bool-cases, inl, inr, if◌then◌else◌, eq_iff,
}
use helix_memory.Runtime.{Floats}
use helix_memory.Types.{Instant}
use helix_memory.Types.Provider.{MemoryProvider, Result, ok, err, succeeded, Error}
use helix_memory.I18n.{Translator}
use helix_memory.Bridge.Schema.{list_tools}
use helix_memory.Bridge.{
  Raw, ToolCall, ToolResult, BridgeJson, SearchParams, AddParams, IdParams, failure, by_error,
  by_result, with_input, search_request, add_entry, handle_search, handle_add, handle_health,
  handle_get, handle_delete, handle_tool_call,
}

abbrev pub decoded {ℓ} : {A : Type ℓ} → Result A → Bool
decoded (err e) = false
decoded (ok a) = true

-- The tools that a call may name are the ones that ListTools gives.
abbrev pub is_listed : {fl : Floats} → Translator fl → String → Bool
is_listed words name = is_seen name (map (λ t. t.name) (list_tools words))

abbrev pub call_of : (name : String) → Raw → ToolCall
call_of name input = record { name = name; input = input }

-- The name of a tool.
data Named (name : String) : Type 0 where
  is_search : name ≡ "memory_search" → Named name
  is_add : name ≡ "memory_add" → Named name
  is_health : name ≡ "memory_health" → Named name
  is_get : name ≡ "memory_get" → Named name
  is_delete : name ≡ "memory_delete" → Named name
  is_unknown :
      str_eq name "memory_search" ≡ false
      → str_eq name "memory_add" ≡ false
      → str_eq name "memory_health" ≡ false
      → str_eq name "memory_get" ≡ false
      → str_eq name "memory_delete" ≡ false
      → Named name

named : (name : String) → Named name
named name = elim (Bool-cases (str_eq name "memory_search")) [
  | inl a ↦ is_search ((eq_iff name _).0 a)
  | inr a ↦ elim (Bool-cases (str_eq name "memory_add")) [
    | inl b ↦ is_add ((eq_iff name _).0 b)
    | inr b ↦ elim (Bool-cases (str_eq name "memory_health")) [
      | inl c ↦ is_health ((eq_iff name _).0 c)
      | inr c ↦ elim (Bool-cases (str_eq name "memory_get")) [
        | inl d ↦ is_get ((eq_iff name _).0 d)
        | inr d ↦ elim (Bool-cases (str_eq name "memory_delete")) [
          | inl e ↦ is_delete ((eq_iff name _).0 e)
          | inr e ↦ is_unknown a b c d e
        ]
      ]
    ]
  ]
]

module _ {fl : Floats} (mp : MemoryProvider fl) (words : Translator fl) (json : BridgeJson fl)
    (now : Instant) where
  -- The tool is listed, and its input is of its shape; the health tool reads no input.
  abbrev pub accepted : ToolCall → Bool
  accepted call =
      if str_eq call.name "memory_search"
      then decoded (json.search_params call.input)
      else if str_eq call.name "memory_add"
      then decoded (json.add_params call.input)
      else if str_eq call.name "memory_health"
      then true
      else is_listed words call.name && decoded (json.id_params call.input)

  -- The provider is not asked, and the answer is an error.
  abbrev pub Refuses : mp.State → mp.State × ToolResult → Type 0
  Refuses s r = (r.0 ≡ s) × (r.1.is_error ≡ true)

  with_input-Refuses :
      {P : Type 0} (s : mp.State) (k : P → mp.State × ToolResult) (r : Result P)
      → decoded r ≡ false
      → Refuses s (with_input words s k r)
  unfolding with_input failure
  with_input-Refuses s k (err e) h = (refl, refl)
  with_input-Refuses s k (ok p) h = absurd (cc)

  refuses_named :
      {name : String}
      → Named name
      → (s : mp.State) (input : Raw) → accepted (call_of name input) ≡ false
      → Refuses s (handle_tool_call mp words json now s (call_of name input))
  unfolding handle_tool_call handle_search handle_add handle_get handle_delete list_tools failure
  refuses_named (is_search e) s input h =
      rw e (with_input-Refuses s _ (json.search_params input) (rw e at h))
  refuses_named (is_add e) s input h =
      rw e (with_input-Refuses s _ (json.add_params input) (rw e at h))
  refuses_named (is_health e) s input h = absurd (cc (rw e at h))
  refuses_named (is_get e) s input h =
      rw e (with_input-Refuses s _ (json.id_params input) (rw e at h))
  refuses_named (is_delete e) s input h =
      rw e (with_input-Refuses s _ (json.id_params input) (rw e at h))
  refuses_named (is_unknown a b c d e) s input h = rw (a, b, c, d, e) (refl, refl)

  -- A call of a tool that ListTools does not name, or with an input that does not decode, is answered by
  -- an error, and leaves the provider alone.
  pub handle_tool_call-Refuses :
      (s : mp.State) (call : ToolCall)
      → accepted call ≡ false
      → Refuses s (handle_tool_call mp words json now s call)
  handle_tool_call-Refuses s call h = refuses_named (named call.name) s call.input h

  -- The provider was asked: its state is the new one, and the answer is an error exactly if it failed.
  abbrev pub Asks {ℓ} : {A : Type ℓ} → (A → Bool) → mp.State × A → mp.State × ToolResult → Type 0
  Asks fine asked r = (r.0 ≡ asked.0) × (r.1.is_error ≡ not (fine asked.1))

  by_result-is_error :
      {A : Type 0} (failed : String) (marshal : A → String) (r : Result A)
      → (by_result words failed marshal r).is_error ≡ not (decoded r)
  unfolding by_result failure
  by_result-is_error failed marshal (err e) = refl
  by_result-is_error failed marshal (ok a) = refl

  by_error-is_error :
      (failed done : String) (o : Option Error)
      → (by_error words failed done o).is_error ≡ not (succeeded o)
  unfolding by_error failure
  by_error-is_error failed done none = refl
  by_error-is_error failed done (some e) = refl

  -- A call of a tool whose input decodes asks the provider for that operation, with the input's values,
  -- and is answered by an error exactly if the provider gives one.
  pub handle_tool_call-Asks :
      (s : mp.State) (searched added named_id : Raw) (p : SearchParams) (q : AddParams)
      (i : IdParams)
      → json.search_params searched ≡ ok p
      → json.add_params added ≡ ok q
      → json.id_params named_id ≡ ok i
      → Asks decoded
          (mp.search s (search_request mp words json now p))
          (handle_tool_call mp words json now s (call_of "memory_search" searched))
        × Asks succeeded
            (mp.add s (add_entry mp words json now q))
            (handle_tool_call mp words json now s (call_of "memory_add" added))
        × Asks succeeded
            (mp.health s)
            (handle_tool_call mp words json now s (call_of "memory_health" added))
        × Asks decoded
            (mp.get s i.id)
            (handle_tool_call mp words json now s (call_of "memory_get" named_id))
        × Asks succeeded
            (mp.delete s i.id)
            (handle_tool_call mp words json now s (call_of "memory_delete" named_id))
  unfolding handle_tool_call handle_search handle_add handle_get handle_delete handle_health
      with_input
  handle_tool_call-Asks s searched added named_id p q i hp hq hi = (
    rw hp (refl, by_result-is_error "mcp_result_search_error" _ _),
    rw hq (refl, by_error-is_error "mcp_result_add_error" "mcp_result_add_success" _),
    (refl, by_error-is_error "mcp_result_unhealthy" "mcp_result_health_ok" _),
    rw hi (refl, by_result-is_error "mcp_result_get_error" _ _),
    rw hi (refl, by_error-is_error "mcp_result_delete_error" "mcp_result_delete_success" _),
  )
