-- ===== src/Samples/Loops.antt =====
-- A loop that starts, selects, and ends after a Stop.
use helix_memory.Prelude.{◌≡◌, ◌≤◌, ◌&&◌, refl, true, false, [], ◌∷◌, length}
use helix_memory.Prelude.Int.{pos}
use helix_memory.Consolidation.{new_engine, start}
use helix_memory.Consolidation.Looping.{Process, ready, waiting, goes, started, starts, selects}
use helix_memory.Consolidation.OneLoop.{Runs, here, next, is_idle, new_process, one_loop}
use helix_memory.Consolidation.ManyLoops.{Reaches, many_loops}
use helix_memory.Samples.Engines.{counting}

abbrev fresh : Process counting
fresh = new_process true (pos 10)

abbrev selecting : Process counting
selecting = record (started fresh) { loops = waiting 1 ∷ [] }

selecting_runs : Runs fresh selecting
unfolding new_process new_engine started start
selecting_runs =
    next (next here (starts fresh) refl) (selects (started fresh) _ (goes ready (waiting 1) [])) tt

one_loop_example :
    (length selecting.loops ≤ 1)
    × (selecting.engine.running && is_idle selecting.loops ≡ false)
    × (selecting.engine.running && selecting.closed selecting.current ≡ false)
one_loop_example = one_loop true (pos 10) selecting_runs

many_loops_example :
    (w : Process counting) × Reaches (new_process true (pos 10)) w
    × (length w.loops ≡ 3)
    × (w.engine.running ≡ false)
many_loops_example = many_loops (pos 10) 3
