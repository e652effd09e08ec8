-- ===== src/Provider/Calls.antt =====
-- When Get, Update, Delete and Health of the unified provider succeed.
use helix_memory.Prelude.{
  count-map, ◌≡◌, refl, ◌∙◌, Bool, true, false, not, List, [], ◌∷◌, Option, none, some, lookup,
  str_eq, exists, exists-Perm, count, arith, String, if◌then◌else◌, ltb, length,
}
use helix_memory.Runtime.{Floats, Runtime, IsGo}
use helix_memory.Types.{MemoryEntry}
use helix_memory.Types.Provider.{MemoryProvider, Error, Result, ok, err, succeeded}
use helix_memory.Provider.{
  UnifiedMemoryProvider, is_some, found_of, ok_or, ranged, get, update, update_owned, update_in,
  delete, health,
}
use helix_memory.Provider.Loops.{first_hit-exists, call_each-map, exists-map}
use helix_memory.Provider.Writes.{error_unless-is_some}

count-exists {ℓ} : {A : Type ℓ} (p : A → Bool) (xs : List A) → ltb 0 (count p xs) ≡ exists p xs
count-exists p [] = refl
count-exists p (x ∷ xs) = ground (arith, count-exists p xs)

exists-length {ℓ} :
    {A : Type ℓ} (p : A → Bool) (xs : List A) → exists p xs ≡ true → ltb 0 (length xs) ≡ true
exists-length p [] h = h
exists-length p (x ∷ xs) h = ground arith

abbrev pub is_ok : {A : Type 0} → Result A → Bool
is_ok (ok a) = true
is_ok (err e) = false

ok_or-is_some : {A : Type 0} (a : Option A) (message : Error) → is_ok (ok_or a message) ≡ is_some a
ok_or-is_some none message = refl
ok_or-is_some (some a) message = refl

-- The system that the entry names as its source, if it is registered.
abbrev pub owner :
    {fl : Floats} {mp : MemoryProvider fl}
    → UnifiedMemoryProvider mp
    → MemoryEntry fl
    → Option mp.State
owner u entry = if str_eq entry.source "" then none else lookup entry.source u.providers

-- The owner updates the entry; without an owner, some system does.
abbrev pub can_update :
    {fl : Floats} {mp : MemoryProvider fl}
    → UnifiedMemoryProvider mp
    → MemoryEntry fl
    → Option mp.State
    → Bool
can_update {mp} u entry none = exists (λ e. is_some (update_in mp entry e.1).1) u.providers
can_update {mp} u entry (some s) = succeeded (mp.update s entry).1

module _ {fl : Floats} {mp : MemoryProvider fl} (rt : Runtime) (go : IsGo rt)
    (u : UnifiedMemoryProvider mp) where
  -- Get succeeds exactly if some registered system has the entry, in whatever order they are asked.
  pub get_finds :
      (id : String)
      → is_ok (get rt u id).1 ≡ exists (λ e. is_some (found_of (mp.get e.1 id).1)) u.providers
  unfolding get
  get_finds id =
      ok_or-is_some _ _
      ∙ first_hit-exists _ (ranged rt u) u
      ∙ exists-Perm _ (go.range_order-perm _ u.providers)

  -- Delete succeeds exactly if no registered system reports an error.
  pub delete_needs_all :
      (id : String)
      → succeeded (delete rt u id).1
        ≡ not (exists (λ e. not (succeeded (mp.delete e.1 id).1)) u.providers)
  unfolding delete
  delete_needs_all id = ground (
    arith,
    call_each-map (λ s. mp.delete s id) (ranged rt u) u,
    exists-map {B = String × Option Error} (λ e. not (succeeded e.1))
        (λ e. (e.0, (mp.delete e.1 id).1)) (ranged rt u),
    exists-Perm (λ e. not (succeeded (mp.delete e.1 id).1)) (go.range_order-perm _ u.providers),
  )

  -- Health succeeds exactly if some registered system is healthy.
  pub health_needs_one :
      succeeded (health rt u).1 ≡ exists (λ e. succeeded (mp.health e.1).1) u.providers
  unfolding health
  health_needs_one = ground (
    arith,
    call_each-map mp.health (ranged rt u) u,
    count-map {B = String × Option Error} (λ e. succeeded e.1) (λ e. (e.0, (mp.health e.1).1))
        (ranged rt u),
    count-exists (λ e. succeeded (mp.health e.1).1) (ranged rt u),
    exists-length (λ e. succeeded (mp.health e.1).1) u.providers,
    exists-Perm (λ e. succeeded (mp.health e.1).1) (go.range_order-perm _ u.providers),
  )

  update_owned-succeeds :
      (entry : MemoryEntry fl) (o : Option mp.State)
      → succeeded (update_owned rt u entry o).1 ≡ can_update u entry o
  unfolding update_owned
  update_owned-succeeds entry (some s) = refl
  update_owned-succeeds entry none =
      error_unless-is_some _ _
      ∙ first_hit-exists (update_in mp entry) (ranged rt u) u
      ∙ exists-Perm _ (go.range_order-perm _ u.providers)

  -- Update of an entry whose source is registered succeeds exactly if that system updates it, with
  -- no fallback; that of any other entry succeeds exactly if some registered system updates it.
  pub update_asks_owner :
      (entry : MemoryEntry fl)
      → succeeded (update rt u entry).1 ≡ can_update u entry (owner u entry)
  unfolding update
  update_asks_owner entry = update_owned-succeeds entry (owner u entry)
