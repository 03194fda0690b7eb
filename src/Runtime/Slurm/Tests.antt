-- ===== src/Runtime/Slurm/Tests.antt =====
-- A job that squeue knows, and the theorem on the answer.
use agent_farm_runtime.Prelude.{
  ◌≡◌, refl, none, some, true, codes, drop_open, split_open, rstrip, lstrip,
}
use agent_farm_runtime.Runtime.Slurm.{Tools, is_job_id, slurm_state}
use agent_farm_runtime.Runtime.Slurm.Laws.{Observed, slurm_state-Observed}

abbrev tools : Tools
tools = record {
  has_squeue = true;
  has_sacct = true;
  squeue = λ job_id. some (codes "RUNNING\n");
  sacct = λ job_id. none;
}

runs : slurm_state tools (codes "12_3") ≡ some (codes "RUNNING")
unfolding slurm_state drop_open split_open rstrip lstrip
runs = refl

slurm_state-Observed_example :
    (is_job_id (codes "12_3") ≡ true) × Observed tools (codes "12_3") (codes "RUNNING")
slurm_state-Observed_example = slurm_state-Observed tools (codes "12_3") (codes "RUNNING") runs
