-- ===== src/Config/Sound.antt =====
-- What `Config.Validate` of pkg/loadtest/config.go accepts.
use perpx_load_test.Base.{
  first_error, first_error-Passed, not, ◌&&◌, ◌≡◌, refl, ◌≢◌, ◌⊎◌, inl, inr, ◌↔◌, Option, none,
  some, List, [], ◌∷◌, String, eq_iff, str_eq, Bool, true, false, arith, lookup, if◌then◌else◌,
  Bool-cases, Option-cases,
}
use perpx_load_test.Base.Int.{ℤ, pos, negsuc, ◌≤ℤ◌, ◌<ℤ◌, ltb_ℤ, eqb_ℤ}
use perpx_load_test.Config.{
  Config, ClientFactory, ConfigError, Registry, validate, validate_with, field_checks,
  valid_broadcast_method, valid_select_method, valid_ui_mode, is_empty,
}

-- The documented ranges of the fields.
pub record IsRunnable (c : Config) : Type 0 where
  pub connections_pos : pos 1 ≤ℤ c.connections
  pub time_pos : pos 1 ≤ℤ c.time
  pub send_period_pos : pos 1 ≤ℤ c.send_period
  pub rate_pos : pos 1 ≤ℤ c.rate
  pub count_limit : (c.count ≡ negsuc 0) ⊎ (pos 1 ≤ℤ c.count)
  pub method_known : valid_broadcast_method c.broadcast_tx_method ≡ true
  pub has_endpoint : c.endpoints ≢ []
  pub select_known : valid_select_method c.endpoint_select_method ≡ true
  pub ui_known : (c.ui ≡ "") ⊎ (valid_ui_mode c.ui ≡ true)
  pub peers_nonneg : pos 0 ≤ℤ c.expect_peers
  pub timeout_given : pos 0 <ℤ c.expect_peers → pos 1 ≤ℤ c.peer_connect_timeout
  pub endpoints_nonneg : pos 0 ≤ℤ c.max_endpoints
  pub connectivity_nonneg : pos 0 ≤ℤ c.min_connectivity

true_of_unset : (b : Bool) → not b ≡ false → b ≡ true
true_of_unset b h = ground arith

pub ge_of_not_lt : (a b : ℤ) → ltb_ℤ a b ≡ false → b ≤ℤ a
ge_of_not_lt a b h = ground arith

count_of_check :
    (n : ℤ) → (ltb_ℤ n (pos 1) && not (eqb_ℤ n (negsuc 0))) ≡ false → (n ≡ negsuc 0) ⊎ (pos 1 ≤ℤ n)
count_of_check n h = ground arith

check_of_count :
    (n : ℤ) → (n ≡ negsuc 0) ⊎ (pos 1 ≤ℤ n) → (ltb_ℤ n (pos 1) && not (eqb_ℤ n (negsuc 0))) ≡ false
check_of_count n h = ground arith

timeout_of_check :
    (p t : ℤ) → (ltb_ℤ (pos 0) p && ltb_ℤ t (pos 1)) ≡ false → pos 0 <ℤ p → pos 1 ≤ℤ t
timeout_of_check p t h q = ground arith

check_of_timeout :
    (p t : ℤ) → (pos 0 <ℤ p → pos 1 ≤ℤ t) → (ltb_ℤ (pos 0) p && ltb_ℤ t (pos 1)) ≡ false
check_of_timeout p t h = ground arith

ui_of_check :
    (s : String)
    → not (valid_ui_mode (if str_eq s "" then "plain" else s)) ≡ false
    → (s ≡ "") ⊎ (valid_ui_mode s ≡ true)
ui_of_check s h = ground (arith, eq_iff s "")

check_of_ui :
    (s : String)
    → (s ≡ "") ⊎ (valid_ui_mode s ≡ true)
    → not (valid_ui_mode (if str_eq s "" then "plain" else s)) ≡ false
check_of_ui s h = elim (Bool-cases (str_eq s "")) [
  | inl e ↦ rw e
  | inr e ↦ rw e (ground (arith, eq_iff s ""))
]

not_empty_of_check : (l : List String) → is_empty l ≡ false → l ≢ []
not_empty_of_check [] h = cc
not_empty_of_check (x ∷ l) h = λ e. cc

check_of_not_empty : (l : List String) → l ≢ [] → is_empty l ≡ false
check_of_not_empty [] h = absurd (h refl)
check_of_not_empty (x ∷ l) h = refl

pub not_lt_of_ge : (a b : ℤ) → b ≤ℤ a → ltb_ℤ a b ≡ false
not_lt_of_ge a b h = ground arith

false_of_true : (b : Bool) → b ≡ true → not b ≡ false
false_of_true b h = ground arith

fields-IsRunnable : (c : Config) → first_error (field_checks c) ≡ none → IsRunnable c
unfolding field_checks
fields-IsRunnable c h =
    let p = (first_error-Passed (field_checks c)).0 h in
    let q = p.1.1.1.1 in
    let r = q.1.1.1.1 in
    record {
      connections_pos = ge_of_not_lt c.connections (pos 1) p.0;
      time_pos = ge_of_not_lt c.time (pos 1) p.1.0;
      send_period_pos = ge_of_not_lt c.send_period (pos 1) p.1.1.0;
      rate_pos = ge_of_not_lt c.rate (pos 1) p.1.1.1.0;
      count_limit = count_of_check c.count q.0;
      method_known = true_of_unset _ q.1.0;
      has_endpoint = not_empty_of_check c.endpoints q.1.1.0;
      select_known = true_of_unset _ q.1.1.1.0;
      ui_known = ui_of_check c.ui r.0;
      peers_nonneg = ge_of_not_lt c.expect_peers (pos 0) r.1.0;
      timeout_given = timeout_of_check c.expect_peers c.peer_connect_timeout r.1.1.0;
      endpoints_nonneg = ge_of_not_lt c.max_endpoints (pos 0) r.1.1.1.0;
      connectivity_nonneg = ge_of_not_lt c.min_connectivity (pos 0) r.1.1.1.1.0;
    }

IsRunnable-fields : (c : Config) → IsRunnable c → first_error (field_checks c) ≡ none
unfolding field_checks
IsRunnable-fields c v = (first_error-Passed (field_checks c)).1 (
  not_lt_of_ge c.connections (pos 1) v.connections_pos,
  (
    not_lt_of_ge c.time (pos 1) v.time_pos,
    (
      not_lt_of_ge c.send_period (pos 1) v.send_period_pos,
      (
        not_lt_of_ge c.rate (pos 1) v.rate_pos,
        (
          check_of_count c.count v.count_limit,
          (
            false_of_true _ v.method_known,
            (
              check_of_not_empty c.endpoints v.has_endpoint,
              (
                false_of_true _ v.select_known,
                (
                  check_of_ui c.ui v.ui_known,
                  (
                    not_lt_of_ge c.expect_peers (pos 0) v.peers_nonneg,
                    (
                      check_of_timeout c.expect_peers c.peer_connect_timeout v.timeout_given,
                      (
                        not_lt_of_ge c.max_endpoints (pos 0) v.endpoints_nonneg,
                        (not_lt_of_ge c.min_connectivity (pos 0) v.connectivity_nonneg, tt),
                      ),
                    ),
                  ),
                ),
              ),
            ),
          ),
        ),
      ),
    ),
  ),
)

-- The factory that the configuration names is registered and accepts it.
abbrev pub Accepts : Registry → Config → Type 0
Accepts reg c =
    (f : ClientFactory) × (lookup c.client_factory reg ≡ some f) × (f.validate_config c ≡ none)

validate_with-none :
    (c : Config) (o : Option ClientFactory)
    → validate_with c o ≡ none
    → ((f : ClientFactory) × (o ≡ some f) × (f.validate_config c ≡ none)) × IsRunnable c
unfolding validate_with
validate_with-none c none h = cc
validate_with-none c (some f) h = elim (Option-cases (f.validate_config c)) [
  | inl e ↦ ((f, refl, e), fields-IsRunnable c (rw (e, validate_with) at h))
  | inr (x, e) ↦ absurd (some≢none (rw (e, validate_with) at h))
]
  where
    some≢none : {x : ConfigError} → some x ≡ none → ⊥
    some≢none q = cc

validate_with-accepted :
    (c : Config) (f : ClientFactory)
    → f.validate_config c ≡ none
    → IsRunnable c
    → validate_with c (some f) ≡ none
unfolding validate_with
validate_with-accepted c f e v = rw (e, validate_with) (IsRunnable-fields c v)

-- `Config.Validate` returns nil exactly when the factory name is not empty, the factory is
-- registered and accepts the configuration, and every field is in the range of `IsRunnable`, which
-- says nothing of the size.
pub validate_iff :
    (reg : Registry) (c : Config)
    → (validate reg c ≡ none) ↔ ((c.client_factory ≢ "") × Accepts reg c × IsRunnable c)
unfolding validate
validate_iff reg c = elim (Bool-cases (str_eq c.client_factory "")) [
  | inl e ↦ rw e ((λ h. cc), (λ (n, _, _). absurd (n ((eq_iff c.client_factory "").0 e))))
  | inr e ↦ rw e (
    (λ h.
        let (a, v) = validate_with-none c (lookup c.client_factory reg) h in
        ((λ q. cc ((eq_iff c.client_factory "").1 q)), a, v)),
    (λ (n, (f, l, a), v). rw l (validate_with-accepted c f a v)),
  )
]
