-- ===== src/Bridge.antt =====
-- pkg/features/mcp_bridge/bridge.go: the memory operations as tools. json.Unmarshal of each input and
-- json.Marshal of the results are parameters, with the translator of package i18n.
pub mod Schema
pub mod Answers
use helix_memory.Prelude.{
  String, Bool, true, false, List, [], ◌∷◌, Option, none, some, str_eq, if◌then◌else◌, str_append,
}
use helix_memory.Prelude.Int.{ℤ, pos, leb_ℤ}
use helix_memory.Runtime.{Floats}
use helix_memory.Types.{
  MemoryEntry, SearchRequest, SearchResult, Instant, default_search_request, zero_entry,
}
use helix_memory.Types.MemoryType
use helix_memory.Types.Provider.{MemoryProvider, Error, Result, ok, err}
use helix_memory.I18n.{Arg, Translator, bundle_prefix}

-- json.RawMessage, and the structs that the handlers decode.
abbrev pub Raw : Type 0
Raw = String

pub record ToolCall : Type 0 where
  pub name : String
  pub input : Raw

pub record ToolResult : Type 0 where
  pub content : String
  pub is_error : Bool

pub record SearchParams : Type 0 where
  pub query : String
  pub top_k : ℤ
  pub user_id : String

pub record AddParams : Type 0 where
  pub content : String
  pub type : String
  pub user_id : String

pub record IdParams : Type 0 where
  pub id : String

pub record BridgeJson (fl : Floats) : Type 0 where
  pub search_params : Raw → Result SearchParams
  pub add_params : Raw → Result AddParams
  pub id_params : Raw → Result IdParams
  -- The text of a result, which may be nil; empty where the encoding fails.
  pub marshal_result : Option (SearchResult fl) → String
  pub marshal_entry : Option (MemoryEntry fl) → String

module _ {fl : Floats} (words : Translator fl) where
  unfoldable pub result_msg : (key : String) → List (Arg fl) → String
  result_msg key args = words.translate "" (str_append bundle_prefix key) args

  unfoldable pub failure : (key : String) → List (Arg fl) → ToolResult
  unfolding result_msg
  failure key args = record { content = result_msg key args; is_error = true }

  -- The results of a call that succeeds or fails by its error alone.
  unfoldable pub by_error : (failed done : String) → Option Error → ToolResult
  unfolding result_msg failure
  by_error failed done none = record { content = result_msg done []; is_error = false }
  by_error failed done (some e) = failure failed (Arg.error e ∷ [])

  -- The results of a call that gives something to encode.
  unfoldable pub by_result : {A : Type 0} → (failed : String) → (A → String) → Result A → ToolResult
  unfolding failure
  by_result failed marshal (err e) = failure failed (Arg.error e ∷ [])
  by_result failed marshal (ok a) = record { content = marshal a; is_error = false }

  -- A handler decodes its input first.
  unfoldable pub with_input : {S P : Type 0} → S → (P → S × ToolResult) → Result P → S × ToolResult
  unfolding failure
  with_input s k (err e) = (s, failure "mcp_result_invalid_input" (Arg.error e ∷ []))
  with_input s k (ok params) = k params

module _ {fl : Floats} (mp : MemoryProvider fl) (words : Translator fl) (json : BridgeJson fl)
    (now : Instant) where
  unfoldable pub search_request : SearchParams → SearchRequest fl
  unfolding default_search_request
  search_request params =
      let req = default_search_request fl params.query in
      let top_k = if leb_ℤ params.top_k (pos 0) then pos 10 else params.top_k in
      record req { top_k = top_k; user_id = params.user_id }

  unfoldable pub add_entry : AddParams → MemoryEntry fl
  add_entry params =
      let zero = zero_entry fl in
      record zero {
        content = params.content;
        type = if str_eq params.type "" then MemoryType.fact else params.type;
        user_id = params.user_id;
        created_at = now;
        updated_at = now;
      }

  unfoldable pub handle_search : mp.State → Raw → mp.State × ToolResult
  unfolding with_input by_result search_request
  handle_search s input =
      with_input words s
        (λ (params : SearchParams).
          let (s', result) = mp.search s (search_request params) in
          (s', by_result words "mcp_result_search_error" json.marshal_result result))
        (json.search_params input)

  unfoldable pub handle_add : mp.State → Raw → mp.State × ToolResult
  unfolding with_input by_error add_entry
  handle_add s input =
      with_input words s
        (λ (params : AddParams).
          let (s', error) = mp.add s (add_entry params) in
          (s', by_error words "mcp_result_add_error" "mcp_result_add_success" error))
        (json.add_params input)

  unfoldable pub handle_health : mp.State → mp.State × ToolResult
  unfolding by_error
  handle_health s =
      let (s', error) = mp.health s in
      (s', by_error words "mcp_result_unhealthy" "mcp_result_health_ok" error)

  unfoldable pub handle_get : mp.State → Raw → mp.State × ToolResult
  unfolding with_input by_result
  handle_get s input =
      with_input words s
        (λ (params : IdParams).
          let (s', result) = mp.get s params.id in
          (s', by_result words "mcp_result_get_error" json.marshal_entry result))
        (json.id_params input)

  unfoldable pub handle_delete : mp.State → Raw → mp.State × ToolResult
  unfolding with_input by_error
  handle_delete s input =
      with_input words s
        (λ (params : IdParams).
          let (s', error) = mp.delete s params.id in
          (s', by_error words "mcp_result_delete_error" "mcp_result_delete_success" error))
        (json.id_params input)

  unfoldable pub handle_tool_call : mp.State → ToolCall → mp.State × ToolResult
  unfolding handle_search handle_add handle_health handle_get handle_delete failure
  handle_tool_call s call =
      if str_eq call.name "memory_search"
      then handle_search s call.input
      else if str_eq call.name "memory_add"
      then handle_add s call.input
      else if str_eq call.name "memory_health"
      then handle_health s
      else if str_eq call.name "memory_get"
      then handle_get s call.input
      else if str_eq call.name "memory_delete"
      then handle_delete s call.input
      else (s, failure words "mcp_result_unknown_tool" (Arg.text call.name ∷ []))
