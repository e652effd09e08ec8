-- ===== src/Samples/Sleep.antt =====
-- The consolidation engine over two systems that share an entry.
use helix_memory.Prelude.{◌≡◌, ◌≢◌, refl, true, false, List, [], ◌∷◌, none}
use helix_memory.Prelude.Int.{pos}
use helix_memory.Types.{MemoryEntry}
use helix_memory.Types.Provider.{MemoryProvider, ok}
use helix_memory.Consolidation.{Engine, new_engine, no_stats, shut, start, stop, run_once}
use helix_memory.Consolidation.Pass.{IsPass, recent, run_once-IsPass}
use helix_memory.Consolidation.Running.{
  starting, stopping, Reaches, done, started, stopped, IsSound, stop_never_panics,
}
use helix_memory.Samples.World.{thousandths}
use helix_memory.Samples.Data.{tea, cocoa}
use helix_memory.Samples.Engines.{counting}

-- A system that answers with the entries that it holds.
abbrev remembering : MemoryProvider thousandths
remembering = record {
  State = List (MemoryEntry thousandths);
  add = λ s e. (e ∷ s, none);
  search = λ s r. (s, ok none);
  get = λ s id. (s, ok none);
  update = λ s e. (s, none);
  delete = λ s id. (s, none);
  get_history = λ s u n. (s, ok s);
  health = λ s. (s, none);
}

abbrev sleeping : Engine remembering
sleeping = record (new_engine remembering true (pos 10)) {
  providers = (tea ∷ []) ∷ (tea ∷ cocoa ∷ []) ∷ [];
}

run_once-IsPass_example :
    let (e, marked, error) = run_once (λ e. "noon") 7 1 sleeping in
    IsPass 2 no_stats e.stats (recent remembering (pos 10) sleeping.providers) marked
    × (error ≡ none)
unfolding new_engine
run_once-IsPass_example = run_once-IsPass (λ e. "noon") 7 1 sleeping

abbrev started_up : Engine counting
started_up = record (new_engine counting true (pos 10)) { running = true }

start_then_stop :
    Reaches
      (new_engine counting true (pos 10))
      (starting ∷ stopping ∷ [])
      (record started_up { running = false; stop_ch = shut })
unfolding new_engine start stop
start_then_stop = started _ _ _ (stopped _ _ _ _ refl (done _))

stop_never_panics_example :
    (stop (record started_up { running = false; stop_ch = shut }) ≢ none)
    × IsSound (record started_up { running = false; stop_ch = shut })
stop_never_panics_example = stop_never_panics true (pos 10) start_then_stop
