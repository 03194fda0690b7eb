-- ===== src/Farmkit/Tests.antt =====
-- Failures of jobs and their wait references, and the theorems of Farmkit there.
use agent_farm_runtime.Prelude.{
  ◌≡◌, ◌↔◌, none, some, true, arith, codes, rstrip, upper, take_word, lstrip, contains, chars_eq,
  if◌then◌else◌,
}
use agent_farm_runtime.Farmkit.Classify.{
  science, infra, normalized, classify, classify_state, starts_with,
}
use agent_farm_runtime.Farmkit.Classify.Laws.{Passed, classify-none_iff}
use agent_farm_runtime.Farmkit.Rulings.{ruling_name, ruling_body, parse_ruling, owner, read_ruling}
use agent_farm_runtime.Farmkit.Rulings.Laws.{parse_ruling-ruling_name}

node_failed : classify (some (codes "NODE_FAIL")) none true none ≡ some infra
unfolding classify classify_state normalized contains rstrip upper take_word lstrip
node_failed = ground arith

classify-none_iff_example :
    (classify (some (codes "COMPLETED")) none true (some 0) ≡ none)
    ↔ Passed (some (codes "COMPLETED")) none true (some 0)
classify-none_iff_example = classify-none_iff (some (codes "COMPLETED")) none true (some 0)

parse_ruling-ruling_name_example :
    parse_ruling
      (some (ruling_name (some (codes "code-study")) science (codes "fit") (codes "0123456789")))
      (some (codes "code-study"))
    ≡ some (
        if starts_with
          (codes "owner")
          (ruling_body (some (codes "code-study")) science (codes "fit") (codes "0123456789"))
        then record { cls = owner; owner_only = true }
        else read_ruling science)
parse_ruling-ruling_name_example =
    parse_ruling-ruling_name (some (codes "code-study")) science (codes "fit") (codes "0123456789")
