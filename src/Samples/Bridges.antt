-- ===== src/Samples/Bridges.antt =====
-- The bridge over a system that finds what it holds.
use helix_memory.Prelude.{String, List, refl, [], ◌∷◌}
use helix_memory.Prelude.Int.{pos}
use helix_memory.Types.{MemoryEntry}
use helix_memory.Types.Provider.{ok, err, succeeded}
use helix_memory.Bridge.{
  BridgeJson, ToolResult, SearchParams, AddParams, handle_tool_call, search_request, add_entry,
}
use helix_memory.Bridge.Answers.{
  Asks, Refuses, call_of, decoded, handle_tool_call-Asks, handle_tool_call-Refuses,
}
use helix_memory.Samples.World.{thousandths}
use helix_memory.Samples.Data.{tea}
use helix_memory.Samples.Features.{finding, words}

-- Each input decodes to one value.
abbrev inputs : BridgeJson thousandths
inputs = record {
  search_params = λ raw. ok (record { query = raw; top_k = pos 0; user_id = "" });
  add_params = λ raw. err "bad input";
  id_params = λ raw. ok (record { id = raw });
  marshal_result = λ r. "result";
  marshal_entry = λ e. "entry";
}

abbrev all_decode : BridgeJson thousandths
all_decode = record inputs {
  add_params = λ raw. ok (record { content = raw; type = ""; user_id = "" });
}

handle_tool_call-Refuses_example :
    Refuses finding words inputs 5
      (tea ∷ [])
      (handle_tool_call finding words inputs 5 (tea ∷ []) (call_of "memory_add" "{"))
handle_tool_call-Refuses_example =
    handle_tool_call-Refuses finding words inputs 5 (tea ∷ []) (call_of "memory_add" "{") refl

abbrev handle : (name input : String) → List (MemoryEntry thousandths) × ToolResult
handle name input = handle_tool_call finding words all_decode 5 (tea ∷ []) (call_of name input)

abbrev searched : SearchParams
searched = record { query = "tea"; top_k = pos 0; user_id = "" }

abbrev added : AddParams
added = record { content = "milk"; type = ""; user_id = "" }

handle_tool_call-Asks_example :
    Asks finding words all_decode 5 decoded
      (finding.search (tea ∷ []) (search_request finding words all_decode 5 searched))
      (handle "memory_search" "tea")
    × Asks finding words all_decode 5 succeeded
        (finding.add (tea ∷ []) (add_entry finding words all_decode 5 added))
        (handle "memory_add" "milk")
    × Asks finding words all_decode 5 succeeded
        (finding.health (tea ∷ []))
        (handle "memory_health" "milk")
    × Asks finding words all_decode 5 decoded (finding.get (tea ∷ []) "1") (handle "memory_get" "1")
    × Asks finding words all_decode 5 succeeded
        (finding.delete (tea ∷ []) "1")
        (handle "memory_delete" "1")
handle_tool_call-Asks_example =
    handle_tool_call-Asks finding words all_decode 5 (tea ∷ []) "tea" "milk" "1" searched added
      (record { id = "1" }) refl refl refl
