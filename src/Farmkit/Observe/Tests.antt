-- ===== src/Farmkit/Observe/Tests.antt =====
-- One job, and the theorems on what is known of it.
use agent_farm_runtime.Prelude.{
  chars_eq, ◌≡◌, refl, none, some, true, false, List, [], ◌∷◌, Chars, codes, contains, keep, arith,
  is_digit, before, after_mark, all, is_space, any, drop_open, split_open, is_line_end,
}
use agent_farm_runtime.Runtime.Slurm
use agent_farm_runtime.Farmkit.Observe.{
  Scheduler, slurm_state, batch, words, queue_state, split_on, account_states, join_with,
}
use agent_farm_runtime.Farmkit.Observe.Laws.{tools_of, slurm_state-eq, Reported, batch-Reported}
use agent_farm_runtime.Farmkit.Observe.Cache.{Cache, first_call, second_call, states, states-Cached}

abbrev queue : Scheduler
queue = record {
  has_squeue = true;
  has_sacct = false;
  run = λ argv. some (record { succeeded = true; stdout = codes "12 RUNNING" });
}

abbrev gone : Scheduler
gone = record queue { run = λ argv. none }

abbrev ids : List Chars
ids = codes "12" ∷ []

abbrev no_cache : Cache
no_cache j = none

slurm_state-eq_example :
    slurm_state queue (codes "12") ≡ Slurm.slurm_state (tools_of queue) (codes "12")
slurm_state-eq_example = slurm_state-eq queue (codes "12")

is_running : batch queue ids (codes "12") ≡ some (codes "RUNNING")
unfolding batch contains queue_state words split_on account_states join_with keep is_space any
    drop_open split_open is_line_end
is_running = ground arith

batch-Reported_example :
    (contains ids (codes "12") ≡ true) × Reported queue ids (codes "12") (codes "RUNNING")
batch-Reported_example = batch-Reported queue ids (codes "12") (codes "RUNNING") is_running

asked : contains (first_call queue gone 30 5 20 no_cache ids ids).asked (codes "12") ≡ true
unfolding states contains keep Slurm.is_job_id before after_mark all is_digit
asked = ground arith

wanted : contains ids (codes "12") ≡ true
unfolding contains
wanted = ground arith

states-Cached_example :
    (contains (second_call queue gone 30 5 20 no_cache ids ids).asked (codes "12") ≡ false)
    × ((second_call queue gone 30 5 20 no_cache ids ids).answer (codes "12")
        ≡ (first_call queue gone 30 5 20 no_cache ids ids).answer (codes "12"))
states-Cached_example =
    states-Cached queue gone 30 5 20 no_cache ids ids (codes "12") asked refl wanted
