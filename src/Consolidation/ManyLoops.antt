-- ===== src/Consolidation/ManyLoops.antt =====
-- What happens if Start does not wait for the loops that run.
use helix_memory.Prelude.{ℕ, zero, suc, ◌≡◌, refl, ap, Bool, true, false, List, [], ◌∷◌, length}
use helix_memory.Prelude.Int.{ℤ}
use helix_memory.Runtime.{Floats}
use helix_memory.Types.Provider.{MemoryProvider}
use helix_memory.Consolidation.{Channel, Engine, new_engine, start, stop, close_channel}
use helix_memory.Consolidation.Looping.{
  Phase, ready, waiting, working, Process, goes, Step, starts, stops, selects, ticks, started,
  stopped,
}
use helix_memory.Consolidation.OneLoop.{new_process}

module _ {fl : Floats} {mp : MemoryProvider fl} where
  -- Any order of steps, a Start at any time among them.
  pub data Reaches (w : Process mp) : Process mp → Type 0 where
    here : Reaches w w
    next : {u v : Process mp} → Reaches w u → Step u v → Reaches w v

  -- An enabled engine that does not run, with loops.
  abbrev between : Engine mp → ℕ → (ℕ → Bool) → List Phase → Process mp
  between e k closed ps = record {
    engine = record e { running = false; enabled = true };
    current = k;
    closed = closed;
    loops = ps;
  }

  record Crowd (w : Process mp) (n : ℕ) : Type 0 where
    engine : Engine mp
    current : ℕ
    closed : ℕ → Bool
    loops : List Phase
    reached : Reaches w (between engine current closed loops)
    counted : length loops ≡ n

  -- Start, the select and the tick of the new loop, and Stop while it is in its pass.
  one_more : {w : Process mp} {n : ℕ} → Crowd w n → Crowd w (suc n)
  unfolding started start stop stopped close_channel
  one_more {w} {n} c =
      let w0 = between c.engine c.current c.closed c.loops in
      let w1 = started w0 in
      let w2 = record w1 { loops = waiting (suc c.current) ∷ c.loops } in
      let w3 = record w1 { loops = working ∷ c.loops } in
      record {
        engine = record c.engine { stop_ch = Channel.shut };
        current = suc c.current;
        closed = (stopped w3 w3.engine).closed;
        loops = working ∷ c.loops;
        reached =
            next
              (next
                (next (next c.reached (starts w0))
                  (selects w1 _ (goes ready (waiting (suc c.current)) c.loops)))
                (ticks w2 (suc c.current) _ (goes (waiting (suc c.current)) working c.loops)))
              (stops w3 _ refl);
        counted = ap suc c.counted;
      }

  crowd : (batch_size : ℤ) (n : ℕ) → Crowd (new_process true batch_size) n
  unfolding new_process new_engine
  crowd batch_size zero = record {
    engine = new_engine mp true batch_size;
    current = 0;
    closed = λ c. false;
    loops = [];
    reached = here;
    counted = refl;
  }
  crowd batch_size (suc n) = one_more (crowd batch_size n)

  -- From a new engine that is enabled, steps lead to any number of loops that run at once, though the
  -- engine says that it does not run.
  pub many_loops :
      (batch_size : ℤ) (n : ℕ)
      → (w : Process mp) × Reaches (new_process true batch_size) w
        × (length w.loops ≡ n)
        × (w.engine.running ≡ false)
  many_loops batch_size n =
      let c = crowd batch_size n in
      (between c.engine c.current c.closed c.loops, c.reached, c.counted, refl)
