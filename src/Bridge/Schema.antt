-- ===== src/Bridge/Schema.antt =====
-- ListTools of pkg/features/mcp_bridge/bridge.go: the tools that the bridge names, with the texts of the
-- translator. A parameter of a tool is its name, its type, its description and whether it has a default.
use helix_memory.Prelude.{String, List, [], ◌∷◌, Option, none, some, str_append}
use helix_memory.Prelude.Int.{ℤ, pos}
use helix_memory.Runtime.{Floats}
use helix_memory.I18n.{Translator, bundle_prefix}

pub record Property : Type 0 where
  pub name : String
  pub type : String
  pub description : String
  pub default : Option ℤ

pub record Tool : Type 0 where
  pub name : String
  pub description : String
  pub properties : List Property
  pub required : List String

module _ {fl : Floats} (words : Translator fl) (locale : String) where
  described : String → String
  described key = words.translate locale (str_append bundle_prefix key) []

  text_property : (name description : String) → Property
  unfolding described
  text_property name description = record {
    name = name;
    type = "string";
    description = described description;
    default = none;
  }

  search_tool : Tool
  unfolding text_property
  search_tool = record {
    name = "memory_search";
    description = described "mcp_tool_search_desc";
    properties =
        text_property "query" "mcp_param_query_desc"
        ∷ record {
          name = "top_k";
          type = "integer";
          description = described "mcp_param_top_k_desc";
          default = some (pos 10);
        }
        ∷ text_property "user_id" "mcp_param_user_filter_desc"
        ∷ [];
    required = "query" ∷ [];
  }

  add_tool : Tool
  unfolding text_property
  add_tool = record {
    name = "memory_add";
    description = described "mcp_tool_add_desc";
    properties =
        text_property "content" "mcp_param_content_desc"
        ∷ text_property "type" "mcp_param_mem_type_desc"
        ∷ text_property "user_id" "mcp_param_user_id_desc"
        ∷ [];
    required = "content" ∷ [];
  }

  health_tool : Tool
  unfolding described
  health_tool = record {
    name = "memory_health";
    description = described "mcp_tool_health_desc";
    properties = [];
    required = [];
  }

  get_tool : Tool
  unfolding text_property
  get_tool = record {
    name = "memory_get";
    description = described "mcp_tool_get_desc";
    properties = text_property "id" "mcp_param_memory_id_desc" ∷ [];
    required = "id" ∷ [];
  }

  delete_tool : Tool
  unfolding text_property
  delete_tool = record {
    name = "memory_delete";
    description = described "mcp_tool_delete_desc";
    properties = text_property "id" "mcp_param_memory_id_desc" ∷ [];
    required = "id" ∷ [];
  }

  unfoldable pub list_tools_localized : List Tool
  unfolding search_tool add_tool health_tool get_tool delete_tool
  list_tools_localized = search_tool ∷ add_tool ∷ health_tool ∷ get_tool ∷ delete_tool ∷ []

unfoldable pub list_tools : {fl : Floats} → Translator fl → List Tool
unfolding list_tools_localized
list_tools words = list_tools_localized words ""
