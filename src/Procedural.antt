-- ===== src/Procedural.antt =====
-- pkg/features/procedural/procedural.go: learned procedures, over a memory system. The new identifier,
-- the clock's readings and the text of a number are arguments. Where the provider returns neither an
-- entry nor an error, or an entry whose map is nil, the code panics, which is `none`.
pub mod Outcomes
use helix_memory.Prelude.{
  ℕ, String, str_append, str_eq, Bool, true, false, List, [], ◌∷◌, map, Option, none, some, Dict,
  lookup, insert, if◌then◌else◌, length,
}
use helix_memory.Prelude.Int.{ℤ, pos, add64}
use helix_memory.Runtime.{Floats}
use helix_memory.Types.{
  MemoryEntry, SearchRequest, SearchResult, Instant, Value, text, int, float,
  default_search_request, zero_entry,
}
use helix_memory.Types.MemoryType
use helix_memory.Types.MemorySource
use helix_memory.Types.Provider.{MemoryProvider, Error, Result, ok, err}

pub record Step : Type 0 where
  pub order : ℤ
  pub action : String
  pub description : String
  pub command : String
  pub expected : String

pub record Procedure (fl : Floats) : Type 0 where
  pub id : String
  pub name : String
  pub description : String
  pub steps : List Step
  pub tags : List String
  pub success_rate : fl.F64
  pub usage_count : ℤ
  pub created_at : Instant
  pub updated_at : Instant

abbrev pub concat : List String → String
concat [] = ""
concat (s ∷ ss) = str_append s (concat ss)

module _ (decimal_text : ℤ → String) where
  unfoldable pub step_text : Step → String
  step_text step =
      let command =
        if str_eq step.command "" then "" else concat (" (cmd: " ∷ step.command ∷ ")" ∷ []) in
      concat ("Step " ∷ decimal_text step.order ∷ ": " ∷ step.action ∷ command ∷ "\n" ∷ [])

  unfoldable pub procedure_text : (name description : String) → List Step → String
  unfolding step_text
  procedure_text name description steps =
      concat ("[PROCEDURE:" ∷ name ∷ "] " ∷ description ∷ "\n" ∷ map step_text steps)

module _ {fl : Floats} where
  unfoldable pub learned :
      (id : String)
      → (created updated : Instant) → (name description : String) → List Step
      → Procedure fl
  learned id created updated name description steps = record {
    id = id;
    name = name;
    description = description;
    steps = steps;
    tags = [];
    success_rate = fl.decimal 10 1;
    usage_count = pos 1;
    created_at = created;
    updated_at = updated;
  }

  unfoldable pub learned_metadata : Procedure fl → Dict (Value fl)
  learned_metadata proc =
      ("procedure_name", text proc.name)
      ∷ ("step_count", int (pos (length proc.steps)))
      ∷ ("success_rate", float proc.success_rate)
      ∷ ("usage_count", int proc.usage_count)
      ∷ []

  unfoldable pub procedure_entry : (decimal_text : ℤ → String) → Procedure fl → MemoryEntry fl
  unfolding procedure_text learned_metadata
  procedure_entry decimal_text proc =
      let zero = zero_entry fl in
      record zero {
        id = proc.id;
        content = procedure_text decimal_text proc.name proc.description proc.steps;
        type = MemoryType.procedural;
        source = MemorySource.fusion;
        metadata = some (learned_metadata proc);
        confidence = fl.decimal 85 2;
        created_at = proc.created_at;
        updated_at = proc.updated_at;
      }

  abbrev pub made : Option (Dict (Value fl)) → Dict (Value fl)
  made none = []
  made (some m) = m

  -- `v, ok := value.(string)` and `v, ok := value.(float64)`
  abbrev pub text_or : String → Option (Value fl) → String
  text_or otherwise (some (text s)) = s
  text_or otherwise v = otherwise

  abbrev pub float_or : fl.F64 → Option (Value fl) → fl.F64
  float_or otherwise (some (float x)) = x
  float_or otherwise v = otherwise

  unfoldable pub found_procedure : MemoryEntry fl → Procedure fl
  unfolding lookup
  found_procedure entry = record {
    id = entry.id;
    name = text_or "" (lookup "procedure_name" (made entry.metadata));
    description = entry.content;
    steps = [];
    tags = [];
    success_rate = float_or (fl.decimal 0 1) (lookup "success_rate" (made entry.metadata));
    usage_count = pos 0;
    created_at = entry.created_at;
    updated_at = entry.updated_at;
  }

  abbrev pub next_count : Option (Value fl) → ℤ
  next_count (some (float count)) = add64 (fl.to_int count) (pos 1)
  next_count v = pos 1

  abbrev pub next_rate : (success : Bool) → Option (Value fl) → fl.F64
  next_rate success (some (float rate)) =
      let kept = fl.mul rate (fl.decimal 9 1) in
      if success then fl.add kept (fl.decimal 1 1) else kept
  next_rate success v = fl.decimal 10 1

  -- What RecordOutcome writes to the map of the entry.
  unfoldable pub outcome_marks : (success : Bool) → Dict (Value fl) → Dict (Value fl)
  unfolding insert lookup
  outcome_marks success m =
      insert "success_rate" (float (next_rate success (lookup "success_rate" m)))
        (insert "usage_count" (int (next_count (lookup "usage_count" m))) m)

module _ {fl : Floats} (mp : MemoryProvider fl) where
  learned_if : Procedure fl → mp.State × Option Error → mp.State × Result (Procedure fl)
  learned_if proc (s, none) = (s, ok proc)
  learned_if proc (s, some e) = (s, err "store procedure")

  unfoldable pub learn_procedure :
      (decimal_text : ℤ → String)
      → (id : String) → (created updated : Instant) → mp.State
      → (name description : String) → List Step
      → mp.State × Result (Procedure fl)
  unfolding learned procedure_entry learned_if
  learn_procedure decimal_text id created updated s name description steps =
      let proc = learned id created updated name description steps in
      learned_if proc (mp.add s (procedure_entry decimal_text proc))

  unfoldable pub procedure_request : (query : String) → SearchRequest fl
  unfolding default_search_request
  procedure_request query =
      let req = default_search_request fl query in
      record req { top_k = pos 5; types = MemoryType.procedural ∷ [] }

  procedures_in :
      mp.State × Result (Option (SearchResult fl))
      → Option (mp.State × Result (List (Procedure fl)))
  unfolding found_procedure
  procedures_in (s, err e) = some (s, err "search procedures")
  procedures_in (s, ok none) = none
  procedures_in (s, ok (some result)) = some (s, ok (map found_procedure result.entries))

  unfoldable pub find_procedure :
      mp.State → (query : String) → Option (mp.State × Result (List (Procedure fl)))
  unfolding procedures_in procedure_request
  find_procedure s query = procedures_in (mp.search s (procedure_request query))

  update_marked :
      (success : Bool)
      → mp.State
      → MemoryEntry fl
      → Option (Dict (Value fl))
      → Option (mp.State × Option Error)
  unfolding outcome_marks
  update_marked success s entry none = none
  update_marked success s entry (some m) =
      some (mp.update s (record entry { metadata = some (outcome_marks success m) }))

  record_got :
      (success : Bool)
      → mp.State × Result (Option (MemoryEntry fl))
      → Option (mp.State × Option Error)
  unfolding update_marked
  record_got success (s, err e) = some (s, some "get procedure")
  record_got success (s, ok none) = none
  record_got success (s, ok (some entry)) = update_marked success s entry entry.metadata

  unfoldable pub record_outcome :
      mp.State → (procedure_id : String) → (success : Bool) → Option (mp.State × Option Error)
  unfolding record_got
  record_outcome s procedure_id success = record_got success (mp.get s procedure_id)
