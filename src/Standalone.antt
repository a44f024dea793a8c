-- ===== src/Standalone.antt =====
-- pkg/loadtest/loadtest.go: a load test of one process. What is logged or drawn is left out; an
-- interrupt is a `cancel` among the events of the transactors.
pub mod Totals
pub mod Examples
use perpx_load_test.Base.{
  ℕ, Bool, true, false, not, String, str_eq, Option, none, some, List, [], ◌∷◌, if◌then◌else◌,
}
use perpx_load_test.Base.Int.{ℤ, pos, negsuc, ltb_ℤ}
use perpx_load_test.Config.{
  Config, ConfigError, Registry, CoordinatorConfig, WorkerConfig, validate, validate_coordinator,
}
use perpx_load_test.Protocol.{Failure}
use perpx_load_test.Transactor.{Event, StopError}
use perpx_load_test.Coordinator.Running.{Peers, found, not_found}
use perpx_load_test.Group.{Group, AggregateStats, new_group, add_all, start, wait, aggregate_stats}

-- What a standalone test meets: the result of the crawl, the connections that are refused, the writes
-- of the close message that succeed, the times of the start and of the statistics, the events of each
-- transactor and the error of writing the file of the statistics.
pub record Surroundings : Type 0 where
  pub peers : Peers
  pub refused : ℕ → Option Failure
  pub closes : ℕ → Bool
  pub started : ℤ
  pub written_at : ℤ
  pub events : List (List Event)
  pub file_error : Option Failure

pub data Ended : Type 0 where
  complete : Ended
  not_started : Failure → Ended
  load_failed : StopError → Ended
  not_written : Failure → Ended

-- The statistics that have been computed for the file, and the end.
pub record Outcome : Type 0 where
  pub group : Group
  pub stats : Option AggregateStats
  pub ended : Ended

unfoldable pub file_end : Option Failure → Ended
file_end none = complete
file_end (some e) = not_written e

-- The end of the test, after `Wait`.
unfoldable pub after_wait : Surroundings → Config → Group × Option StopError → Outcome
unfolding aggregate_stats file_end
after_wait u c (g, some e) = record { group = g; stats = none; ended = load_failed e }
after_wait u c (g, none) =
    if not (str_eq c.stats_output_file "")
    then (record {
      group = g;
      stats = some (aggregate_stats u.written_at g);
      ended = file_end u.file_error;
    })
    else (record { group = g; stats = none; ended = complete })

-- The test, from the result of `AddAll`.
unfoldable pub after_adding : Surroundings → Config → Group × Option Failure → Outcome
unfolding start wait after_wait
after_adding u c (g, some e) = record { group = g; stats = none; ended = not_started e }
after_adding u c (g, none) = after_wait u c (wait (start u.started u.events g))

unfoldable pub execute_on : Surroundings → Config → Outcome
unfolding add_all new_group after_adding
execute_on u c = after_adding u c (add_all u.refused u.closes c new_group)

unfoldable pub with_crawl : Surroundings → Config → Peers → Outcome
unfolding execute_on
with_crawl u c (not_found e) = record { group = new_group; stats = none; ended = not_started e }
with_crawl u c (found peers) = execute_on u (record c { endpoints = peers })

-- `ExecuteStandalone`.
unfoldable pub execute_standalone : Surroundings → Config → Outcome
unfolding with_crawl execute_on
execute_standalone u c =
    if ltb_ℤ (pos 0) c.expect_peers then with_crawl u c u.peers else execute_on u c
