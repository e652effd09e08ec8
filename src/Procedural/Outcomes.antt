-- ===== src/Procedural/Outcomes.antt =====
-- What RecordOutcome makes of an entry.
use helix_memory.Prelude.{
  ◌≡◌, ap, ◌∙◌, String, str_eq, Bool, List, [], ◌∷◌, some, Dict, lookup, lookup-insert,
  if◌then◌else◌,
}
use helix_memory.Prelude.Int.{ℤ, pos}
use helix_memory.Runtime.{Floats}
use helix_memory.Types.{MemoryEntry, Value, int, float}
use helix_memory.Types.Provider.{MemoryProvider, ok}
use helix_memory.Procedural.{
  Procedure, learned_metadata, next_count, next_rate, outcome_marks, record_outcome, record_got,
  update_marked,
}

module _ {fl : Floats} where
  -- The two keys that an outcome writes, and all others.
  pub outcome_marks_lem :
      (success : Bool) (m : Dict (Value fl)) (k : String)
      → lookup k (outcome_marks success m) ≡ (
          if str_eq "success_rate" k
          then some (float (next_rate success (lookup "success_rate" m)))
          else if str_eq "usage_count" k
          then some (int (next_count (lookup "usage_count" m)))
          else lookup k m)
  unfolding outcome_marks
  outcome_marks_lem success m k = simp lookup-insert

  -- Where the provider gives an entry with a map, RecordOutcome updates that entry: the usage count and
  -- the success rate are written, and every other key of the map keeps its value.
  pub record_outcome_updates :
      (mp : MemoryProvider fl) (s s' : mp.State) (id : String) (success : Bool) (e : MemoryEntry fl)
      (m : Dict (Value fl))
      → mp.get s id ≡ (s', ok (some e))
      → e.metadata ≡ some m
      → (m' : Dict (Value fl)) × (record_outcome mp s id success
          ≡ some (mp.update s' (record e { metadata = some m' })))
        × ((k : String)
            → lookup k m' ≡ (
                if str_eq "success_rate" k
                then some (float (next_rate success (lookup "success_rate" m)))
                else if str_eq "usage_count" k
                then some (int (next_count (lookup "usage_count" m)))
                else lookup k m))
  unfolding record_outcome record_got update_marked
  record_outcome_updates mp s s' id success e m got held = (
    outcome_marks success m,
    ap (record_got mp success) got ∙ ap (update_marked mp success s' e) held,
    outcome_marks_lem success m,
  )

  -- The outcomes of a procedure, one after the other.
  abbrev pub outcomes_marks : List Bool → Dict (Value fl) → Dict (Value fl)
  outcomes_marks [] m = m
  outcomes_marks (o ∷ os) m = outcomes_marks os (outcome_marks o m)

  stays_one :
      (os : List Bool) (m : Dict (Value fl))
      → lookup "usage_count" m ≡ some (int (pos 1))
      → lookup "usage_count" (outcomes_marks os m) ≡ some (int (pos 1))
  stays_one [] m h = h
  stays_one (o ∷ os) m h =
      stays_one os (outcome_marks o m) (outcome_marks_lem o m "usage_count" ∙ rw h)

  -- LearnProcedure stores the usage count as an int, and RecordOutcome reads a float64: if the map is
  -- kept as it was stored, the count is 1 after any number of outcomes.
  pub outcomes_never_counted :
      (proc : Procedure fl) (os : List Bool)
      → proc.usage_count ≡ pos 1
      → lookup "usage_count" (outcomes_marks os (learned_metadata proc)) ≡ some (int (pos 1))
  unfolding learned_metadata lookup
  outcomes_never_counted proc os h =
      stays_one os (learned_metadata proc) (ap (λ (n : ℤ). some (int n)) h)
