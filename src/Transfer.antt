-- ===== src/Transfer.antt =====
-- pkg/features/cross_project/transfer.go: the entries of one project, stored again for another. A
-- provider that returns neither a result nor an error makes the search panic, which is `none`. The
-- clock's reading and the new identifiers are arguments: by category, and by the entry that is copied.
pub mod Counts
use helix_memory.Prelude.{
  ℕ, suc, ◌+◌, String, List, [], ◌∷◌, ◌++◌, map, Option, none, some, Dict, lookup, insert, length,
  ltb, if◌then◌else◌,
}
use helix_memory.Prelude.Int.{pos}
use helix_memory.Runtime.{Floats, Runtime}
use helix_memory.Types.{
  MemoryEntry, SearchRequest, SearchResult, Instant, Value, text, default_search_request,
  zero_entry,
}
use helix_memory.Types.MemoryType
use helix_memory.Types.MemorySource
use helix_memory.Types.Provider.{MemoryProvider, Error, Result, ok, err}

pub record TransferableKnowledge (fl : Floats) : Type 0 where
  pub id : String
  pub source_project : String
  pub category : String
  pub entries : List (MemoryEntry fl)
  pub confidence : fl.F64

pub record TransferResult : Type 0 where
  pub source_project : String
  pub target_project : String
  pub transferred : ℕ
  pub skipped : ℕ
  pub failed : ℕ
  pub duration : ℕ

abbrev pub new_result : (source_project target_project : String) → TransferResult
new_result source_project target_project = record {
  source_project = source_project;
  target_project = target_project;
  transferred = 0;
  skipped = 0;
  failed = 0;
  duration = 0;
}

abbrev pub made {ℓ} : {A : Type ℓ} → Option (Dict A) → Dict A
made none = []
made (some m) = m

abbrev pub made_list {ℓ} : {A : Type ℓ} → Option (List A) → List A
made_list none = []
made_list (some xs) = xs

module _ {fl : Floats} where
  abbrev pub category_or_general : Option (Value fl) → String
  category_or_general (some (text c)) = c
  category_or_general v = "general"

  unfoldable pub category_of : MemoryEntry fl → String
  unfolding lookup
  category_of entry = category_or_general (lookup "dna_type" (made entry.metadata))

  -- `categories[cat] = append(categories[cat], entry)`
  unfoldable pub put_entry :
      Dict (List (MemoryEntry fl)) → MemoryEntry fl → Dict (List (MemoryEntry fl))
  unfolding lookup insert category_of
  put_entry categories entry =
      let cat = category_of entry in
      insert cat (made_list (lookup cat categories) ++ entry ∷ []) categories

  unfoldable pub group :
      List (MemoryEntry fl) → Dict (List (MemoryEntry fl)) → Dict (List (MemoryEntry fl))
  unfolding put_entry
  group [] categories = categories
  group (e ∷ es) categories = group es (put_entry categories e)

  unfoldable pub total_confidence : List (MemoryEntry fl) → fl.F64 → fl.F64
  total_confidence [] total = total
  total_confidence (e ∷ es) total = total_confidence es (fl.add total e.confidence)

  unfoldable pub knowledge_of :
      (new_id : String → String)
      → (source_project : String) → String × List (MemoryEntry fl)
      → TransferableKnowledge fl
  unfolding total_confidence
  knowledge_of new_id source_project (cat, entries) = record {
    id = new_id cat;
    source_project = source_project;
    category = cat;
    entries = entries;
    confidence =
        if ltb 0 (length entries)
        then fl.div (total_confidence entries (fl.decimal 0 1)) (fl.of_int (pos (length entries)))
        else fl.decimal 0 1;
  }

  unfoldable pub copy_of :
      (new_id : MemoryEntry fl → String)
      → (now : Instant) → (source_project target_project category : String) → MemoryEntry fl
      → MemoryEntry fl
  copy_of new_id now source_project target_project category entry =
      let zero = zero_entry fl in
      record zero {
        id = new_id entry;
        content = entry.content;
        type = entry.type;
        source = MemorySource.fusion;
        metadata = some (
            ("transferred_from", text source_project)
            ∷ ("transferred_to", text target_project)
            ∷ ("transfer_category", text category)
            ∷ ("original_id", text entry.id)
            ∷ []);
        confidence = fl.mul entry.confidence (fl.decimal 9 1);
        created_at = now;
        updated_at = now;
      }

module _ {fl : Floats} (mp : MemoryProvider fl) (rt : Runtime) where
  -- `query` is the text [DNA:project].
  unfoldable pub dna_request : (query : String) → SearchRequest fl
  unfolding default_search_request
  dna_request query =
      let req = default_search_request fl query in
      record req { top_k = pos 50; types = MemoryType.procedural ∷ MemoryType.graph ∷ [] }

  knowledge_found :
      (new_id : String → String)
      → (source_project : String) → mp.State × Result (Option (SearchResult fl))
      → Option (mp.State × Result (List (TransferableKnowledge fl)))
  unfolding group knowledge_of
  knowledge_found new_id source_project (s, err e) = some (s, err "identify transferable")
  knowledge_found new_id source_project (s, ok none) = none
  knowledge_found new_id source_project (s, ok (some result)) = some (
    s,
    ok (
        map (knowledge_of new_id source_project)
          (rt.range_order (String × List (MemoryEntry fl)) (group result.entries []))),
  )

  unfoldable pub identify_transferable :
      (new_id : String → String)
      → (query : String) → (source_project : String) → mp.State
      → Option (mp.State × Result (List (TransferableKnowledge fl)))
  unfolding dna_request knowledge_found
  identify_transferable new_id query source_project s =
      knowledge_found new_id source_project (mp.search s (dna_request query))

module _ {fl : Floats} (mp : MemoryProvider fl) (new_id : MemoryEntry fl → String) (now : Instant)
    (source_project target_project : String) where
  count_added : Option Error → TransferResult → TransferResult
  count_added none result = record result { transferred = result.transferred + 1 }
  count_added (some e) result = record result { failed = result.failed + 1 }

  -- The inner loop and the outer one.
  unfoldable pub transfer_entries :
      (category : String)
      → List (MemoryEntry fl)
      → mp.State × TransferResult
      → mp.State × TransferResult
  unfolding copy_of count_added
  transfer_entries category [] (s, result) = (s, result)
  transfer_entries category (e ∷ es) (s, result) =
      let (s', error) = mp.add s (copy_of new_id now source_project target_project category e) in
      transfer_entries category es (s', count_added error result)

  unfoldable pub transfer_all :
      List (TransferableKnowledge fl) → mp.State × TransferResult → mp.State × TransferResult
  unfolding transfer_entries
  transfer_all [] r = r
  transfer_all (k ∷ ks) r = transfer_all ks (transfer_entries k.category k.entries r)

  timed : (duration : ℕ) → mp.State × TransferResult → mp.State × Result TransferResult
  timed duration (s, result) = (s, ok (record result { duration = duration }))

  transfer_known :
      (duration : ℕ)
      → Option (mp.State × Result (List (TransferableKnowledge fl)))
      → Option (mp.State × Result TransferResult)
  unfolding transfer_all timed
  transfer_known duration none = none
  transfer_known duration (some (s, err e)) = some (s, err e)
  transfer_known duration (some (s, ok knowledge)) =
      some (timed duration (transfer_all knowledge (s, new_result source_project target_project)))

  unfoldable pub transfer :
      Runtime
      → (group_id : String → String) → (query : String) → (duration : ℕ) → mp.State
      → Option (mp.State × Result TransferResult)
  unfolding identify_transferable transfer_known
  transfer rt group_id query duration s =
      transfer_known duration (identify_transferable mp rt group_id query source_project s)
