-- ===== src/Consolidation/OneLoop.antt =====
-- If Start waits until no loop is left, at most one loop runs.
use helix_memory.Prelude.{
  ℕ, suc, ◌<◌, ◌≤◌, ◌≡◌, refl, sym, ap, subst, String, Bool, true, false, not, ◌&&◌, List, [], ◌∷◌,
  Option, none, some, if◌then◌else◌, length, Bool-cases, inl, inr, arith,
}
use helix_memory.Prelude.Int.{ℤ}
use helix_memory.Runtime.{Floats}
use helix_memory.Types.{MemoryEntry, Instant}
use helix_memory.Types.Provider.{MemoryProvider}
use helix_memory.Consolidation.{
  Channel, opened, shut, Engine, new_engine, start, stop, close_channel, loop_cancelled, run_once,
  finish, consolidate,
}
use helix_memory.Consolidation.Looping.{
  Phase, ready, waiting, working, Process, Turns, goes, returns, later, Step, starts, stops,
  selects, halts, cancels, ticks, finishes, started, stopped,
}

abbrev pub is_idle : List Phase → Bool
is_idle [] = true
is_idle (p ∷ ps) = false

-- A loop in its select waits for the channel in stopCh.
abbrev At : ℕ → Phase → Type 0
At k ready = Unit {0}
At k (waiting c) = c ≡ k
At k working = Unit {0}

abbrev Lone : ℕ → List Phase → Type 0
Lone k [] = Unit {0}
Lone k (p ∷ []) = At k p
Lone k (p ∷ q ∷ ps) = ⊥

Turns-Lone :
    {xs ys : List Phase} {p q : Phase} (k : ℕ)
    → Turns xs p (some q) ys
    → Lone k xs
    → At k q
    → Lone k ys × (is_idle ys ≡ false)
Turns-Lone k (goes p q []) h a = (a, refl)
Turns-Lone k (goes p q (r ∷ ps)) h a = absurd h
Turns-Lone k (later r p o _ _ (goes _ _ ps)) h a = absurd h
Turns-Lone k (later r p o _ _ (later _ _ _ _ _ t)) h a = absurd h

Turns-idle :
    {xs ys : List Phase} {p : Phase} (k : ℕ) → Turns xs p none ys → Lone k xs → (ys ≡ []) × At k p
Turns-idle k (returns p []) h = (refl, h)
Turns-idle k (returns p (r ∷ ps)) h = absurd h
Turns-idle k (later r p o _ _ (returns _ ps)) h = absurd h
Turns-idle k (later r p o _ _ (later _ _ _ _ _ t)) h = absurd h

Lone-length : (k : ℕ) (ps : List Phase) → Lone k ps → length ps ≤ 1
Lone-length k [] h = omega arith
Lone-length k (p ∷ []) h = omega arith
Lone-length k (p ∷ q ∷ ps) h = absurd h

module _ {fl : Floats} {mp : MemoryProvider fl} where
  record IsSingle (w : Process mp) : Type 0 where
    lone : Lone w.current w.loops
    busy : w.engine.running && is_idle w.loops ≡ false
    live : w.engine.running && w.closed w.current ≡ false
    fresh : (c : ℕ) → w.current < c → w.closed c ≡ false

  -- A Start waits for the loops that run.
  abbrev pub Patient : {w w' : Process mp} → Step w w' → Type 0
  Patient (starts w) = w.loops ≡ []
  Patient s = Unit {0}

  pub data Runs (w : Process mp) : Process mp → Type 0 where
    here : Runs w w
    next : {u v : Process mp} → Runs w u → (s : Step u v) → Patient s → Runs w v

  halted : Option (Engine mp) → Bool
  halted none = true
  halted (some e) = not e.running

  close_channel-halted : (c : Channel) (e : Engine mp) → halted (close_channel c e) ≡ true
  unfolding close_channel halted
  close_channel-halted opened e = refl
  close_channel-halted shut e = refl

  stop-halted : (e : Engine mp) → halted (stop e) ≡ true
  unfolding stop halted
  stop-halted e = elim (Bool-cases e.running) [
    | inl b ↦ rw b (close_channel-halted e.stop_ch _)
    | inr b ↦ rw b refl
  ]

  finish-running :
      (stamp : MemoryEntry fl → String) (now : Instant) (duration : ℕ) (e : Engine mp)
      (es : List (MemoryEntry fl)) (processed : ℕ)
      → (finish stamp now duration e es processed).0.running ≡ e.running
  unfolding finish consolidate
  finish-running stamp now duration e [] processed = refl
  finish-running stamp now duration e (x ∷ xs) processed = refl

  run_once-running :
      (stamp : MemoryEntry fl → String) (now : Instant) (duration : ℕ) (e : Engine mp)
      → (run_once stamp now duration e).0.running ≡ e.running
  unfolding run_once
  run_once-running stamp now duration e = finish-running stamp now duration _ _ _

  -- A Start that makes a loop, and one that does not.
  made-IsSingle :
      (b : Bool) (w : Process mp) (e : Engine mp)
      → e.running ≡ (if b then true else w.engine.running)
      → w.loops ≡ []
      → IsSingle w
      → IsSingle (record w {
        engine = e;
        current = if b then suc w.current else w.current;
        loops = if b then ready ∷ w.loops else w.loops;
      })
  made-IsSingle true w e on none_left h = record {
    lone = subst (λ (ps : List Phase). Lone (suc w.current) (ready ∷ ps)) (sym none_left) tt;
    busy = ground arith;
    live = ground (arith, h.fresh (suc w.current));
    fresh = λ c lt. h.fresh c (omega arith);
  }
  made-IsSingle false w e same none_left h = record {
    lone = h.lone;
    busy = ground (arith, same, h.busy);
    live = ground (arith, same, h.live);
    fresh = h.fresh;
  }

  started_running :
      (e : Engine mp)
      → (start e).0.running ≡ (if not e.running && e.enabled then true else e.running)
  unfolding start
  started_running e = ground arith

  started-IsSingle : (w : Process mp) → w.loops ≡ [] → IsSingle w → IsSingle (started w)
  unfolding started
  started-IsSingle w none_left h =
      made-IsSingle (not w.engine.running && w.engine.enabled) w (start w.engine).0
        (started_running w.engine) none_left h

  stopped-IsSingle :
      (w : Process mp) (e : Engine mp)
      → stop w.engine ≡ some e
      → IsSingle w
      → IsSingle (stopped w e)
  unfolding stopped halted
  stopped-IsSingle w e q h =
      let off : e.running ≡ false =
        ground
          (arith, subst (λ (o : Option (Engine mp)). halted o ≡ true) q (stop-halted w.engine)) in
      record {
        lone = h.lone;
        busy = rw off refl;
        live = rw off refl;
        fresh = λ c lt. ground (arith, h.fresh c lt);
      }

  -- A loop that goes on.
  turned-IsSingle :
      (w : Process mp) (e : Engine mp) (p q : Phase) (ps : List Phase)
      → e.running ≡ w.engine.running
      → Turns w.loops p (some q) ps
      → At w.current q
      → IsSingle w
      → IsSingle (record w { engine = e; loops = ps })
  turned-IsSingle w e p q ps same t a h =
      let (lone, some_left) = Turns-Lone w.current t h.lone a in
      record {
        lone = lone;
        busy = ground (arith, some_left);
        live = ground (arith, same, h.live);
        fresh = h.fresh;
      }

  -- A loop that returns, while the engine does not run.
  returned-IsSingle :
      (w : Process mp) (e : Engine mp) (p : Phase) (ps : List Phase)
      → e.running ≡ false
      → Turns w.loops p none ps
      → IsSingle w
      → IsSingle (record w { engine = e; loops = ps })
  returned-IsSingle w e p ps off t h =
      let (gone, a) = Turns-idle w.current t h.lone in
      record {
        lone = subst (Lone w.current) (sym gone) tt;
        busy = rw off refl;
        live = rw off refl;
        fresh = h.fresh;
      }

  halts_off :
      (w : Process mp) (c : ℕ) (ps : List Phase)
      → w.closed c ≡ true
      → Turns w.loops (waiting c) none ps
      → IsSingle w
      → w.engine.running ≡ false
  halts_off w c ps closed t h =
      let at = (Turns-idle w.current t h.lone).1 in ground (arith, h.live, closed, ap w.closed at)

  Step-IsSingle : {w w' : Process mp} (s : Step w w') → Patient s → IsSingle w → IsSingle w'
  unfolding loop_cancelled
  Step-IsSingle (starts w) patient h = started-IsSingle w patient h
  Step-IsSingle (stops w e q) patient h = stopped-IsSingle w e q h
  Step-IsSingle (selects w ps t) patient h = turned-IsSingle w w.engine ready _ ps refl t refl h
  Step-IsSingle (halts w c ps closed t) patient h =
      returned-IsSingle w w.engine _ ps (halts_off w c ps closed t h) t h
  Step-IsSingle (cancels w c ps t) patient h = returned-IsSingle w _ _ ps refl t h
  Step-IsSingle (ticks w c ps t) patient h = turned-IsSingle w w.engine _ working ps refl t tt h
  Step-IsSingle (finishes w stamp now duration ps t) patient h =
      turned-IsSingle w _ working ready ps (run_once-running stamp now duration w.engine) t tt h

  Runs-IsSingle : {w w' : Process mp} → Runs w w' → IsSingle w → IsSingle w'
  Runs-IsSingle here h = h
  Runs-IsSingle (next r s patient) h = Step-IsSingle s patient (Runs-IsSingle r h)

  -- A new engine, before any loop.
  unfoldable pub new_process : (enabled : Bool) (batch_size : ℤ) → Process mp
  unfolding new_engine
  new_process enabled batch_size = record {
    engine = new_engine mp enabled batch_size;
    current = 0;
    closed = λ c. false;
    loops = [];
  }

  -- In every run from a new engine in which each Start comes when no loop is left, at most one loop
  -- runs, an engine that says that it runs has one, and the channel in its field stopCh is not closed.
  pub one_loop :
      (enabled : Bool) (batch_size : ℤ) {w : Process mp}
      → Runs (new_process enabled batch_size) w
      → (length w.loops ≤ 1)
        × (w.engine.running && is_idle w.loops ≡ false)
        × (w.engine.running && w.closed w.current ≡ false)
  unfolding new_process
  one_loop enabled batch_size {w} r =
      let h =
        Runs-IsSingle r (record { lone = tt; busy = refl; live = refl; fresh = λ c lt. refl }) in
      (Lone-length w.current w.loops h.lone, h.busy, h.live)
