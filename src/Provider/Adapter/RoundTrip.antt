-- ===== src/Provider/Adapter/RoundTrip.antt =====
-- A memory that goes through an entry and back.
use helix_memory.Prelude.{
  String, str_eq, str_eq-false, eq_iff, ◌≡◌, ◌≢◌, refl, sym, ap, ◌∙◌, List, [], ◌∷◌, Option, none,
  some, Dict, lookup, insert, lookup-insert, HasDistinctKeys, insert-HasDistinctKeys, All,
  Bool-cases, inl, inr, if◌then◌else◌, arith,
}
use helix_memory.Runtime.{Floats}
use helix_memory.Types.{MemoryEntry, Instant, Value, text}
use helix_memory.Provider.Adapter.{
  StoreModule, copy_into, entries_of_map, nonzero_or, scope_or, module_memory_to_entry,
  module_metadata, entry_to_module_memory,
}

-- The fields of a composite literal are those given.
pub record IsStruct {fl : Floats} (store : StoreModule fl) : Type 0 where
  pub fields :
      (i c : String) (m : Option (Dict (Value fl))) (s : String) (t u : Instant) (x : fl.F64)
      (e : List fl.F32)
      → let r = store.memory i c m s t u x e in
        (store.id r ≡ i)
        × (store.content r ≡ c)
        × (store.metadata r ≡ m)
        × (store.scope r ≡ s)
        × (store.created_at r ≡ t)
        × (store.updated_at r ≡ u)
        × (store.score r ≡ x)
        × (store.embedding r ≡ e)

abbrev or_else {ℓ} : {A : Type ℓ} → Option A → Option A → Option A
or_else none b = b
or_else (some a) b = some a

module _ {A : Type 0} where
  lookup_absent : (k : String) (m : Dict A) → All (λ b. k ≢ b.0) m → lookup k m ≡ none
  unfolding lookup
  lookup_absent k [] h = refl
  lookup_absent k ((j, v) ∷ m) h = rw (str_eq-false j k (λ e. h.0 (sym e))) (lookup_absent k m h.1)

  -- A copy has the values of the map, and beneath them those that were there.
  lookup-copy_into :
      (k : String) (to m : Dict A)
      → HasDistinctKeys m
      → lookup k (copy_into to m) ≡ or_else (lookup k m) (lookup k to)
  unfolding copy_into lookup
  lookup-copy_into k to [] h = refl
  lookup-copy_into k to ((j, v) ∷ m) h = elim (Bool-cases (str_eq j k)) [
    | inl same ↦
        let gone = lookup_absent k m (rw ((eq_iff j k).0 same) at h.0) in
        rw same (
          rw (lookup-copy_into k (insert j v to) m h.1)
            (rw gone (rw (lookup-insert j k v to) (rw same refl))))
    | inr other ↦ rw other (
        rw (lookup-copy_into k (insert j v to) m h.1) (rw (lookup-insert j k v to) (rw other refl)))
  ]

  lookup-copied :
      (k : String) (m : Dict A) → HasDistinctKeys m → lookup k (copy_into [] m) ≡ lookup k m
  unfolding lookup
  lookup-copied k m h = lookup-copy_into k [] m h ∙ or_else-none (lookup k m)
    where
      or_else-none : (o : Option A) → or_else o none ≡ o
      or_else-none none = refl
      or_else-none (some a) = refl

  copy_into-HasDistinctKeys :
      (to m : Dict A) → HasDistinctKeys to → HasDistinctKeys (copy_into to m)
  unfolding copy_into
  copy_into-HasDistinctKeys to [] h = h
  copy_into-HasDistinctKeys to ((k, v) ∷ m) h =
      copy_into-HasDistinctKeys (insert k v to) m (insert-HasDistinctKeys k v to h)

-- The keys that the adapter writes itself.
abbrev pub reserved : List String
reserved = "scope" ∷ "helix_source" ∷ "helix_type" ∷ "helix_confidence" ∷ []

module _ {fl : Floats} (store : StoreModule fl) (new_id : String) (m : store.Memory) where
  entry-HasDistinctKeys :
      HasDistinctKeys (entries_of_map (module_memory_to_entry store new_id m).metadata)
  unfolding module_memory_to_entry
  entry-HasDistinctKeys =
      insert-HasDistinctKeys "scope" (text (store.scope m)) _
        (copy_into-HasDistinctKeys [] (entries_of_map (store.metadata m)) tt)

  entry-id : store.id m ≢ "" → (module_memory_to_entry store new_id m).id ≡ store.id m
  unfolding module_memory_to_entry
  entry-id named = rw (str_eq-false (store.id m) "" named) refl

  entry-lookup :
      (k : String)
      → HasDistinctKeys (entries_of_map (store.metadata m))
      → lookup k (entries_of_map (module_memory_to_entry store new_id m).metadata) ≡ (
          if str_eq "scope" k
          then some (text (store.scope m))
          else lookup k (entries_of_map (store.metadata m)))
  unfolding module_memory_to_entry
  entry-lookup k h =
      lookup-insert "scope" k (text (store.scope m)) _
      ∙ ap (λ rest. if str_eq "scope" k then some (text (store.scope m)) else rest)
          (lookup-copied k (entries_of_map (store.metadata m)) h)

nonzero_or_lem : (now : Instant) {t : Instant} → t ≢ 0 → nonzero_or now t ≡ t
nonzero_or_lem now h = ground (arith, h)

module _ {fl : Floats} (store : StoreModule fl) where
  module_metadata-lookup :
      (e : MemoryEntry fl) (k : String)
      → HasDistinctKeys (entries_of_map e.metadata)
      → All (λ j. j ≢ k) reserved
      → lookup k (module_metadata e) ≡ lookup k (entries_of_map e.metadata)
  unfolding module_metadata
  module_metadata-lookup e k h (scope, (source, (type, (confidence, done)))) =
      rw (lookup-insert "helix_confidence" k) (
        rw (str_eq-false "helix_confidence" k confidence) (
          rw (lookup-insert "helix_type" k) (
            rw (str_eq-false "helix_type" k type) (
              rw (lookup-insert "helix_source" k)
                (rw (str_eq-false "helix_source" k source) (lookup-copied k _ h))))))

  -- A memory with an identifier and its two times set comes back from an entry with every field that
  -- the adapter knows of, and with every value of its metadata but those under the keys that the
  -- adapter writes itself. It assumes that the keys of a map are distinct, and that a struct has the
  -- fields that it is made with.
  pub round_trip :
      (struct : IsStruct store) (new_id : String) (clock : Instant × Instant) (m : store.Memory)
      → store.id m ≢ ""
      → store.created_at m ≢ 0
      → store.updated_at m ≢ 0
      → HasDistinctKeys (entries_of_map (store.metadata m))
      → let r = entry_to_module_memory store clock (module_memory_to_entry store new_id m) in
        (store.id r ≡ store.id m)
        × (store.content r ≡ store.content m)
        × (store.scope r ≡ store.scope m)
        × (store.created_at r ≡ store.created_at m)
        × (store.updated_at r ≡ store.updated_at m)
        × (store.score r ≡ store.score m)
        × (store.embedding r ≡ store.embedding m)
        × ((k : String)
            → All (λ j. j ≢ k) reserved
            → lookup k (entries_of_map (store.metadata r))
              ≡ lookup k (entries_of_map (store.metadata m)))
  unfolding entry_to_module_memory module_memory_to_entry
  round_trip struct new_id clock m named made changed distinct =
      let e = module_memory_to_entry store new_id m in
      let s =
        struct.fields e.id e.content (some (module_metadata e))
          (scope_or store.scope_user (lookup "scope" (entries_of_map e.metadata)))
          (nonzero_or clock.0 e.created_at) (nonzero_or clock.1 e.updated_at) e.relevance
          e.embedding in
      let (id, content, metadata, scope, created, updated, score, embedding) = s in
      (
        id ∙ entry-id store new_id m named,
        content,
        scope ∙ ap (scope_or store.scope_user) (entry-lookup store new_id m "scope" distinct),
        created ∙ nonzero_or_lem clock.0 made,
        updated ∙ nonzero_or_lem clock.1 changed,
        score,
        embedding,
        λ k free.
            ap (λ d. lookup k (entries_of_map d)) metadata
            ∙ module_metadata-lookup e k (entry-HasDistinctKeys store new_id m) free
            ∙ entry-lookup store new_id m k distinct
            ∙ rw (str_eq-false "scope" k free.0) refl,
      )
