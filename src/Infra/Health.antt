-- ===== src/Infra/Health.antt =====
-- What a health check of the services counts.
use helix_memory.Prelude.{
  suc, ◌+◌, ◌≡◌, ◌≢◌, refl, sym, ◌∙◌, String, str_eq-false, Bool, not, [], ◌∷◌, Dict, insert,
  length, count, count-eq-length, exists, All, All-insert, IsChained-Perm, HasDistinctKeys,
  if◌then◌else◌, arith, length-Perm,
}
use mathlib.Core.List.Perm
use mathlib.Core.HLevel.{¬_prop}
use helix_memory.Runtime.{Runtime, IsGo}
use helix_memory.Types.{Instant}
use helix_memory.Infra.{
  ServiceName, ServiceEndpoint, HealthStatus, Outside, ComposeProvider, all_healthy, check_service,
  note_endpoint, check_all, health_check,
}

module _ {ℓ} {V : Type ℓ} where
  NotIn : String → Dict V → Type 0
  NotIn k m = All (λ (b : String × V). b.0 ≢ k) m

  count-insert_new :
      (p : String × V → Bool) (k : String) (v : V) (m : Dict V)
      → NotIn k m
      → count p (insert k v m) ≡ (if p (k, v) then suc (count p m) else count p m)
  unfolding insert NotIn
  count-insert_new p k v [] h = refl
  count-insert_new p k v ((j, w) ∷ m) h =
      rw (str_eq-false j k h.0) (ground (arith, count-insert_new p k v m h.1))

  length-insert_new :
      (k : String) (v : V) (m : Dict V) → NotIn k m → length (insert k v m) ≡ suc (length m)
  unfolding insert NotIn
  length-insert_new k v [] h = refl
  length-insert_new k v ((j, w) ∷ m) h =
      rw (str_eq-false j k h.0) (omega (arith, length-insert_new k v m h.1))

  NotIn-insert : (j k : String) (v : V) (m : Dict V) → k ≢ j → NotIn j m → NotIn j (insert k v m)
  unfolding NotIn
  NotIn-insert j k v m other h = All-insert (λ (b : String × V). b.0 ≢ j) k v m other h

-- The services of a status are counted.
record IsCounted (s : HealthStatus) : Type 0 where
  healthy_lem : s.healthy ≡ count (λ e. not (not e.1.healthy)) s.services
  total_lem : s.total ≡ length s.services

Unchecked : Dict ServiceEndpoint → HealthStatus → Type 0
Unchecked rest s = All (λ (a : String × ServiceEndpoint). NotIn a.0 s.services) rest

note_endpoint-IsCounted :
    (out : Outside) (name : ServiceName) (e : ServiceEndpoint) (healthy : Bool) (s : HealthStatus)
    → NotIn name s.services
    → IsCounted s
    → IsCounted (note_endpoint out name e healthy s)
unfolding note_endpoint
note_endpoint-IsCounted out name e healthy s fresh h =
    let e' : ServiceEndpoint = record e { healthy = healthy } in
    record {
      healthy_lem = ground (
        arith,
        count-insert_new (λ (a : String × ServiceEndpoint). not (not a.1.healthy)) name e'
            s.services fresh,
        h.healthy_lem,
      );
      total_lem = omega (arith, length-insert_new name e' s.services fresh, h.total_lem);
    }

note_endpoint-Unchecked :
    (out : Outside) (name : ServiceName) (e : ServiceEndpoint) (healthy : Bool) (s : HealthStatus)
    (rest : Dict ServiceEndpoint)
    → All (λ (a : String × ServiceEndpoint). name ≢ a.0) rest
    → Unchecked rest s
    → Unchecked rest (note_endpoint out name e healthy s)
unfolding Unchecked note_endpoint
note_endpoint-Unchecked out name e healthy s [] d h = tt
note_endpoint-Unchecked out name e healthy s ((j, f) ∷ rest) d h = (
  NotIn-insert j name _ s.services d.0 h.0,
  note_endpoint-Unchecked out name e healthy s rest d.1 h.1,
)

check_all_lem :
    (out : Outside) (rest : Dict ServiceEndpoint) (w : out.World) (s : HealthStatus)
    → HasDistinctKeys rest
    → Unchecked rest s
    → IsCounted s
    → let after = (check_all out rest (w, s)).1 in
      IsCounted after × (after.total ≡ s.total + length rest)
unfolding check_all Unchecked
check_all_lem out [] w s d u h = (h, omega arith)
check_all_lem out ((name, e) ∷ rest) w s d u h =
    let checked = check_service out w e in
    let (counted, total) =
      check_all_lem out rest checked.0 (note_endpoint out name e checked.1 s) d.1
        (note_endpoint-Unchecked out name e checked.1 s rest d.0 u.1)
        (note_endpoint-IsCounted out name e checked.1 s u.0 h) in
    (counted, total ∙ omega arith)

nothing_checked :
    (rest : Dict ServiceEndpoint) (at : Instant)
    → Unchecked rest (record { services = []; healthy = 0; total = 0; checked_at = at })
unfolding Unchecked NotIn
nothing_checked [] at = tt
nothing_checked (a ∷ rest) at = (tt, nothing_checked rest at)

-- A health check of services with distinct names counts each of them once, and AllHealthy holds of its
-- status exactly if the check found no service unhealthy.
pub health_check_counts :
    (out : Outside) (rt : Runtime) (go : IsGo rt) (c : ComposeProvider) (now : Instant)
    (w : out.World)
    → HasDistinctKeys c.endpoints
    → let status = (health_check out rt c now w).1 in
      (status.total ≡ length c.endpoints)
      × (length status.services ≡ length c.endpoints)
      × (all_healthy status ≡ not (exists (λ s. not s.1.healthy) status.services))
unfolding health_check all_healthy
health_check_counts out rt go c now w d =
    let order = go.range_order-perm (ServiceName × ServiceEndpoint) c.endpoints in
    let distinct =
      IsChained-Perm (λ (a b : ServiceName × ServiceEndpoint). a.0 ≢ b.0) (λ a b n q. n (sym q))
        (λ a b. ¬_prop) (Perm.symm order) d in
    let walked = rt.range_order (ServiceName × ServiceEndpoint) c.endpoints in
    let (counted, total) =
      check_all_lem out walked w _ distinct (nothing_checked walked now)
        (record { healthy_lem = refl; total_lem = refl }) in
    let status =
      (check_all out walked
        (w, record { services = []; healthy = 0; total = 0; checked_at = now })).1 in
    let sum : status.total ≡ length c.endpoints = omega (arith, total, length-Perm order) in
    (
      sum,
      omega (arith, counted.total_lem, sum),
      ground (
        arith,
        counted.healthy_lem,
        counted.total_lem,
        count-eq-length (λ (e : String × ServiceEndpoint). not e.1.healthy) status.services,
      ),
    )
