-- ===== src/Seed/Plan.antt =====
-- What the parts of the plan of pkg/seed/seed.go have given.
use perpx_load_test.Base.{ℕ, ◌≡◌, ap, subst, ◌∙◌, List, bind_ok, ok}
use perpx_load_test.Seed.{Config, seed_secret}
use perpx_load_test.Seed.Funding.{
  Coin, Sdk, Node, Plan, total_required, bench_addrs, low_ones, parsed_coin, checked, plan_for,
  listed, with_account, with_secret, with_total, with_coin, plan,
}

module _ (sdk : Sdk) (node : Node) (c : Config) where
  pub record IsMade (p : Plan) : Type 0 where
    pub required : ℕ
    pub total : total_required sdk node c p.coin ≡ ok required
    pub addrs : List (List ℕ)
    pub benches : bench_addrs sdk node c c.workers ≡ ok addrs
    pub low : low_ones sdk node c node.before p.coin.coin_amount addrs ≡ ok p.needs

  plan_for_parts :
      (coin : Coin) (secret : List ℕ) (account : ℕ × ℕ) (needs : List (List ℕ)) (p : Plan)
      → plan_for sdk node c coin secret account needs ≡ ok p
      → (coin ≡ p.coin) × (needs ≡ p.needs)
  unfolding plan_for
  plan_for_parts coin secret account needs p h =
      let made : Plan = record { secret = secret; coin = coin; account = account; needs = needs } in
      let q : made ≡ p = cc in (ap (λ r. r.coin) q, ap (λ r. r.needs) q)

  pub plan-IsMade : (p : Plan) → plan sdk node c ≡ ok p → IsMade p
  plan-IsMade p h =
      let (coin, (_, h₁)) =
        bind_ok (parsed_coin sdk node c (sdk.parse_coin c.fund_amount)) (with_coin sdk node c) p
          (unfold plan in h) in
      let (required, (total, h₂)) =
        bind_ok (total_required sdk node c coin) (with_total sdk node c coin) p
          (unfold with_coin in h₁) in
      let (secret, (_, h₃)) =
        bind_ok (seed_secret sdk.derive c) (with_secret sdk node c coin required) p
          (unfold with_total in h₂) in
      let (account, (_, h₄)) =
        bind_ok (checked sdk node c required secret) (with_account sdk node c coin secret) p
          (unfold with_secret in h₃) in
      let (addrs, (e, h₅)) =
        bind_ok (bench_addrs sdk node c c.workers) (listed sdk node c coin secret account) p
          (unfold with_account in h₄) in
      let (needs, (f, h₆)) =
        bind_ok (low_ones sdk node c node.before coin.coin_amount addrs)
          (plan_for sdk node c coin secret account) p (unfold listed in h₅) in
      let (same_coin, same_needs) = plan_for_parts coin secret account needs p h₆ in
      record {
        required = required;
        total = subst (λ k. total_required sdk node c k ≡ ok required) same_coin total;
        addrs = addrs;
        benches = e;
        low =
            subst (λ k. low_ones sdk node c node.before k.coin_amount addrs ≡ ok p.needs) same_coin
              (f ∙ ap ok same_needs);
      }
