-- ===== src/LocalStore/Kept.antt =====
-- What is added is read back.
use helix_memory.Prelude.{
  String, str_eq, ◌≡◌, sym, ap, ◌∙◌, refl, false, List, [], ◌∷◌, Dict, Option, none, some,
  if◌then◌else◌,
}
use helix_memory.Runtime.{Floats}
use helix_memory.Types.{Instant, Value}
use helix_memory.Types.Provider.{Result, ok}
use helix_memory.Provider.Adapter.{StoreModule, nonzero_or}
use helix_memory.Provider.Adapter.RoundTrip.{IsStruct}
use helix_memory.LocalStore.Rows.{
  Row, StoreJson, Database, filled, on_conflict, marshal_embedding, unmarshal_embedding, row_of,
  row_with, memory_of, memory_with,
}
use helix_memory.LocalStore.{add, put_row, get, found_row}

abbrev pub created_of : {fl : Floats} → Instant → Option (Row fl) → Instant
created_of now none = now
created_of now (some old) = old.created_at

-- The row that is in the table after an INSERT … ON CONFLICT with a SET list.
abbrev pub merged :
    {fl : Floats} → (set : Row fl → Row fl → Row fl) → Row fl → Option (Row fl) → Row fl
merged set row none = row
merged set row (some old) = set old row

pair_eq : {A B : Type 0} {p : A × B} {a : A} {b : B} → p.0 ≡ a → p.1 ≡ b → p ≡ (a, b)
pair_eq q r = λ i. (q i, r i)

-- What the SQL documentation says of INSERT … ON CONFLICT(id) DO UPDATE SET: a row is inserted where
-- none has its identifier, and else the SET list makes the new row of the old one and of the one that
-- was to be inserted, if it leaves the identifier alone. A row that is selected by an identifier has
-- it.
pub record IsTable {fl : Floats} (db : Database fl) : Type 1 where
  pub upserted :
      (s s' : db.State) (set : Row fl → Row fl → Row fl) (row : Row fl) (old : Option (Row fl))
      → db.select_by_id s row.id ≡ ok old
      → ((a b : Row fl) → (set a b).id ≡ a.id)
      → db.upsert s set row ≡ (s', none)
      → db.select_by_id s' row.id ≡ ok (some (merged set row old))
  pub keyed :
      (s : db.State) (k : String) (row : Row fl) → db.select_by_id s k ≡ ok (some row) → row.id ≡ k

-- What encoding/json says of a value that it can encode without loss: the text is not empty, and
-- reads back as the value.
pub record Survives {A : Type 0} (marshal : A → Result String) (unmarshal : String → Result A)
    (a : A) : Type 0 where
  pub encoded : String
  pub marshals : marshal a ≡ ok encoded
  pub not_empty : str_eq encoded "" ≡ false
  pub reads_back : unmarshal encoded ≡ ok a

module _ {fl : Floats} (store : StoreModule fl) (struct : IsStruct store) (json : StoreJson fl)
    (db : Database fl) (table : IsTable db) where
  row_of_memory :
      (i c : String) (m : Option (Dict (Value fl))) (s : String) (t u : Instant) (x : fl.F64)
      (e : List fl.F32) (metadata : String) (blob : Option String)
      → json.marshal_map m ≡ ok metadata
      → marshal_embedding store json e ≡ ok blob
      → row_of store json (store.memory i c m s t u x e)
        ≡ ok (record {
          id = i;
          content = c;
          scope = s;
          metadata = metadata;
          embedding = blob;
          score = x;
          created_at = t;
          updated_at = u;
        })
  unfolding row_of row_with
  row_of_memory i c m s t u x e metadata blob hm he =
      let memory = store.memory i c m s t u x e in
      let f = struct.fields i c m s t u x e in
      ap
        (λ (o : Result String).
          row_with store json memory o (marshal_embedding store json (store.embedding memory)))
        (ap json.marshal_map f.2 ∙ hm)
      ∙ ap (row_with store json memory (ok metadata)) (ap (marshal_embedding store json) f.7 ∙ he)
      ∙ rw (f.0, f.1, f.3, f.4, f.5, f.6)

  blob_reads_back :
      (e : List fl.F32)
      → Survives json.marshal_floats json.unmarshal_floats e
      → (blob : Option String) × (marshal_embedding store json e ≡ ok blob)
        × (unmarshal_embedding store json blob ≡ ok e)
  unfolding marshal_embedding unmarshal_embedding
  blob_reads_back [] h = (none, refl, refl)
  blob_reads_back (x ∷ xs) h = (some h.encoded, rw h.marshals refl, rw h.not_empty h.reads_back)

  on_conflict-id : (a b : Row fl) → (on_conflict a b).id ≡ a.id
  unfolding on_conflict
  on_conflict-id a b = refl

  -- The row that is merged into an old one has all columns of the new one but the creation time.
  merged-on_conflict :
      (row : Row fl) (old : Option (Row fl))
      → ((r : Row fl) → old ≡ some r → r.id ≡ row.id)
      → merged on_conflict row old ≡ record row { created_at = created_of row.created_at old }
  unfolding on_conflict
  merged-on_conflict row none h = refl
  merged-on_conflict row (some old) h = rw (h old refl) refl

  -- A memory is added without an error, and the row of its identifier was `old` before. If its metadata
  -- and its embedding can be encoded without loss, Get gives back all of the memory: its content,
  -- metadata, score, embedding and scope, or the user's scope where it has none; its identifier, or
  -- the new one; its times, or the reading of the clock where they are not set; only the creation time
  -- is that of the old row where there is one.
  pub add-get :
      (new_id : String) (now : Instant) (s s' : db.State) (m : store.Memory) (old : Option (Row fl))
      → let id = if str_eq (store.id m) "" then new_id else store.id m in
        db.select_by_id s id ≡ ok old
        → Survives json.marshal_map json.unmarshal_map (store.metadata m)
        → Survives json.marshal_floats json.unmarshal_floats (store.embedding m)
        → (add store json db new_id now s (some m)).0 ≡ s'
        → (add store json db new_id now s (some m)).2 ≡ none
        → (r : store.Memory) × (get store json db s' id ≡ ok r)
          × (store.id r ≡ id)
          × (store.content r ≡ store.content m)
          × (store.scope r
              ≡ (if str_eq (store.scope m) "" then store.scope_user else store.scope m))
          × (store.score r ≡ store.score m)
          × (store.metadata r ≡ store.metadata m)
          × (store.embedding r ≡ store.embedding m)
          × (store.created_at r ≡ created_of (nonzero_or now (store.created_at m)) old)
          × (store.updated_at r ≡ nonzero_or now (store.updated_at m))
  unfolding add put_row filled get found_row memory_of memory_with
  add-get new_id now s s' m old held maps floats after fine =
      let id = if str_eq (store.id m) "" then new_id else store.id m in
      let scope = if str_eq (store.scope m) "" then store.scope_user else store.scope m in
      let created = nonzero_or now (store.created_at m) in
      let updated = nonzero_or now (store.updated_at m) in
      let (blob, written, read) = blob_reads_back (store.embedding m) floats in
      let row : Row fl = record {
        id = id;
        content = store.content m;
        scope = scope;
        metadata = maps.encoded;
        embedding = blob;
        score = store.score m;
        created_at = created;
        updated_at = updated;
      } in
      let row' : Row fl = record row { created_at = created_of created old } in
      let encoded =
        row_of_memory id (store.content m) (store.metadata m) scope created updated (store.score m)
          (store.embedding m) maps.encoded blob maps.marshals written in
      let put : db.upsert s on_conflict row ≡ (s', none) =
        pair_eq (ap (λ (o : Result (Row fl)). (put_row store json db s o).0) (sym encoded) ∙ after)
          (ap (λ (o : Result (Row fl)). (put_row store json db s o).1) (sym encoded) ∙ fine) in
      let same = merged-on_conflict row old (λ r e. table.keyed s id r (held ∙ ap ok e)) in
      let metadata : (if str_eq maps.encoded "" then ok none else json.unmarshal_map maps.encoded)
          ≡ ok (store.metadata m) =
        rw maps.not_empty maps.reads_back in
      let f =
        struct.fields id (store.content m) (store.metadata m) scope (created_of created old) updated
          (store.score m) (store.embedding m) in
      (
        store.memory id (store.content m) (store.metadata m) scope (created_of created old) updated
            (store.score m) (store.embedding m),
        ap (found_row store json db)
              (table.upserted s s' on_conflict row old held on_conflict-id put)
            ∙ ap (λ (r : Row fl). memory_of store json r) same
            ∙ ap
                (λ (o : Result (Option (Dict (Value fl)))).
                  memory_with store json row' o (unmarshal_embedding store json blob))
                metadata
            ∙ ap (memory_with store json row' (ok (store.metadata m))) read,
        f.0,
        f.1,
        f.3,
        f.6,
        f.2,
        f.7,
        f.4,
        f.5,
      )
