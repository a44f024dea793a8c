-- ===== src/Standalone/Totals.antt =====
-- The totals of a standalone test, pkg/loadtest/loadtest.go.
use perpx_load_test.Base.{
  ℕ, ◌*◌, ◌≤◌, ◌<◌, ◌≡◌, refl, sym, ap, subst, ◌∙◌, String, Bool, true, false, not, str_eq, Option,
  none, some, List, [], ◌++◌, arith, if◌then◌else◌, length,
}
use perpx_load_test.Base.Int.{pos, pos_part, ltb_ℤ, two63}
use perpx_load_test.Config.{Config}
use perpx_load_test.Protocol.{Failure}
use perpx_load_test.Transactor.{StopError}
use perpx_load_test.Transactor.Limit.{HasLimit}
use perpx_load_test.Coordinator.Running.{Peers, found, not_found}
use perpx_load_test.Group.{
  Group, AggregateStats, start, wait, sum_at, total_txs, compute, aggregate_stats, new_group,
  add_all,
}
use perpx_load_test.Group.Adding.{length-fresh, Fills, add_all-Fills}
use perpx_load_test.Group.Totals.{
  listed, Below, AllWithin, run_each-AllWithin, fresh-AllWithin, track_each-listed, sum_within,
  add_each-Untracked,
}
use perpx_load_test.Standalone.{
  Surroundings, Outcome, after_wait, after_adding, execute_on, with_crawl, execute_standalone,
}

-- What the statistics of an outcome hold, if there are any.
abbrev pub StatsWithin : ℕ → Option AggregateStats → Type 0
StatsWithin most none = Unit {0}
StatsWithin most (some s) = (j : ℕ) × ((s.stats_txs ≡ pos j) × (j ≤ most))

either_stats :
    (most : ℕ) (b : Bool) (x y : Outcome)
    → StatsWithin most x.stats
    → StatsWithin most y.stats
    → StatsWithin most (if b then x else y).stats
either_stats most true x y v w = v
either_stats most false x y v w = w

module _ (n r : ℕ) (u : Surroundings) where
  after_wait-StatsWithin :
      (c : Config) (most : ℕ) (w : Group × Option StopError)
      → ((j : ℕ) × ((total_txs w.0 ≡ pos j) × (j ≤ most)))
      → StatsWithin most (after_wait u c w).stats
  unfolding after_wait aggregate_stats compute
  after_wait-StatsWithin c most (g, some e) h = tt
  after_wait-StatsWithin c most (g, none) h =
      either_stats most (not (str_eq c.stats_output_file "")) _ _ h tt

  total_within :
      (g : Group) (m : ℕ)
      → g.tx_counts ≡ []
      → AllWithin n r g.transactors
      → length g.transactors ≡ m
      → m * n < two63
      → (j : ℕ) × ((total_txs (wait (start u.started u.events g)).0 ≡ pos j) × (j ≤ m * n))
  unfolding total_txs wait start
  total_within g m empty v len h =
      let begun = start u.started u.events g in
      let (vs, same) = run_each-AllWithin n r u.events g.transactors v in
      let below : Below 0 begun.tx_counts = subst (Below 0) (sym empty) tt in
      let counts : (wait begun).0.tx_counts ≡ listed 0 begun.transactors =
        track_each-listed begun.transactors 0 begun below
        ∙ ap (λ c. c ++ listed 0 begun.transactors) empty in
      let size : length begun.transactors * n ≡ m * n = ap (λ k. k * n) (same ∙ len) in
      let (j, (q, le)) = sum_within n r begun.transactors 0 0 vs (omega (arith, size, h)) in
      (j, (ap (sum_at (pos 0)) counts ∙ q, omega (arith, size, le)))

  after_adding-StatsWithin :
      (c : Config) (m : ℕ) (a : Group × Option Failure)
      → HasLimit n r c
      → Fills c u.closes m a
      → a.0.tx_counts ≡ []
      → m * n < two63
      → StatsWithin (m * n) (after_adding u c a).stats
  unfolding after_adding
  after_adding-StatsWithin c m (g, some e) l f empty h = tt
  after_adding-StatsWithin c m (g, none) l f empty h =
      after_wait-StatsWithin c (m * n) (wait (start u.started u.events g)) (
        total_within g m empty (subst (AllWithin n r) (sym f) (fresh-AllWithin n r c 0 m l))
          (ap length f ∙ length-fresh c 0 m) h)

  execute_on-StatsWithin :
      (c : Config)
      → HasLimit n r c
      → length c.endpoints * pos_part c.connections * n < two63
      → StatsWithin (length c.endpoints * pos_part c.connections * n) (execute_on u c).stats
  unfolding execute_on
  execute_on-StatsWithin c l h =
      after_adding-StatsWithin c (length c.endpoints * pos_part c.connections)
        (add_all u.refused u.closes c new_group) l (add_all-Fills u.refused u.closes c)
        (unfold add_all in
          add_each-Untracked u.refused u.closes c c.endpoints new_group (unfold new_group in refl))
        h

-- The endpoints that a test uses: those of the crawl, where peers are expected.
abbrev pub used : Bool → Peers → Config → List String
used true (found peers) c = peers
used true (not_found e) c = []
used false p c = c.endpoints

by_crawl :
    (n r : ℕ) (u : Surroundings) (c : Config) (b : Bool) (p : Peers)
    → HasLimit n r c
    → length (used b p c) * pos_part c.connections * n < two63
    → StatsWithin
        (length (used b p c) * pos_part c.connections * n)
        (if b then with_crawl u c p else execute_on u c).stats
unfolding with_crawl
by_crawl n r u c true (found peers) l h =
    execute_on-StatsWithin n r u (record c { endpoints = peers })
      (record { limit = l.limit; rate = l.rate; limit_pos = l.limit_pos; fits = l.fits }) h
by_crawl n r u c true (not_found e) l h = tt
by_crawl n r u c false p l h = execute_on-StatsWithin n r u c l h

-- With a positive `Count` that fits an `int` with the rate and with all the connections: the number of
-- transactions in the statistics of a standalone test, where there are statistics, is at most `Count`
-- for each connection to each endpoint that the test uses, whatever its transactors meet.
pub execute_standalone-StatsWithin :
    (n r : ℕ) (u : Surroundings) (c : Config)
    → HasLimit n r c
    → length (used (ltb_ℤ (pos 0) c.expect_peers) u.peers c) * pos_part c.connections * n < two63
    → StatsWithin
        (length (used (ltb_ℤ (pos 0) c.expect_peers) u.peers c) * pos_part c.connections * n)
        (execute_standalone u c).stats
unfolding execute_standalone
execute_standalone-StatsWithin n r u c l h =
    by_crawl n r u c (ltb_ℤ (pos 0) c.expect_peers) u.peers l h
