-- ===== src/Consolidation/Looping.antt =====
-- The loop of pkg/consolidation/consolidation.go, as goroutines beside Start and Stop. A loop reads the
-- field stopCh anew at each select, and then waits for that channel, the context or the ticker.
use helix_memory.Prelude.{
  ℕ, suc, ◌≡◌, String, Bool, true, not, ◌&&◌, ◌||◌, List, ◌∷◌, Option, none, some, if◌then◌else◌,
  ◌==◌,
}
use helix_memory.Runtime.{Floats}
use helix_memory.Types.{MemoryEntry, Instant}
use helix_memory.Types.Provider.{MemoryProvider}
use helix_memory.Consolidation.{Engine, start, stop, loop_cancelled, run_once}

-- Where a loop is: before its select, in it with the channel that it read, or in a pass.
pub data Phase : Type 0 where
  ready : Phase
  waiting : (channel : ℕ) → Phase
  working : Phase

-- The engine, the channels that were made so far, of which the last is in stopCh, those that are closed,
-- and the loops that run.
pub record Process {fl : Floats} (mp : MemoryProvider fl) : Type 0 where
  pub engine : Engine mp
  pub current : ℕ
  pub closed : ℕ → Bool
  pub loops : List Phase

-- Two of the list of loops that differ in one place: the loop `p` there goes on as `q`, or returns.
pub data Turns : List Phase → Phase → Option Phase → List Phase → Type 0 where
  goes : (p q : Phase) (ps : List Phase) → Turns (p ∷ ps) p (some q) (q ∷ ps)
  returns : (p : Phase) (ps : List Phase) → Turns (p ∷ ps) p none ps
  later :
      (r p : Phase) (o : Option Phase) (ps qs : List Phase)
      → Turns ps p o qs
      → Turns (r ∷ ps) p o (r ∷ qs)

module _ {fl : Floats} {mp : MemoryProvider fl} where
  -- A Start that starts makes a channel and a loop.
  unfoldable pub started : Process mp → Process mp
  unfolding start
  started w =
      let fresh = not w.engine.running && w.engine.enabled in
      record w {
        engine = (start w.engine).0;
        current = if fresh then suc w.current else w.current;
        loops = if fresh then ready ∷ w.loops else w.loops;
      }

  -- A Stop of an engine that runs closes the channel in stopCh.
  unfoldable pub stopped : Process mp → Engine mp → Process mp
  stopped w e = record w {
    engine = e;
    closed = λ c. w.engine.running && c == w.current || w.closed c;
  }

  pub data Step : Process mp → Process mp → Type 0 where
    starts : (w : Process mp) → Step w (started w)
    stops : (w : Process mp) (e : Engine mp) → stop w.engine ≡ some e → Step w (stopped w e)
    selects :
        (w : Process mp) (ps : List Phase)
        → Turns w.loops ready (some (waiting w.current)) ps
        → Step w (record w { loops = ps })
    halts :
        (w : Process mp) (c : ℕ) (ps : List Phase)
        → w.closed c ≡ true
        → Turns w.loops (waiting c) none ps
        → Step w (record w { loops = ps })
    cancels :
        (w : Process mp) (c : ℕ) (ps : List Phase)
        → Turns w.loops (waiting c) none ps
        → Step w (record w { engine = loop_cancelled w.engine; loops = ps })
    ticks :
        (w : Process mp) (c : ℕ) (ps : List Phase)
        → Turns w.loops (waiting c) (some working) ps
        → Step w (record w { loops = ps })
    finishes :
        (w : Process mp) (stamp : MemoryEntry fl → String) (now : Instant) (duration : ℕ)
        (ps : List Phase)
        → Turns w.loops working (some ready) ps
        → Step w (record w { engine = (run_once stamp now duration w.engine).0; loops = ps })
