-- ===== src/Seed/Flags.antt =====
-- The command line of pkg/seed/seed.go.
use perpx_load_test.Base.{ℕ, ◌≡◌, refl, ap, ◌∙◌, ◌⊎◌, inl, inr, some, List, [], ◌∷◌, codes, All}
use perpx_load_test.Base.Int.{ℤ, InInt64}
use perpx_load_test.Base.Decimal.{decimal_int}
use perpx_load_test.Rpc.Printing.{parse_int-decimal_int}
use perpx_load_test.Seed.{
  Config, flag_of, kept_value, atoi_value, set_flag, scan, parse_args, default_config,
}

-- An option with its value.
pub data Setting : Type 0 where
  workers_are batch_size_is : ℤ → Setting
  seed_key_is private_key_is rpc_is chain_id_is denom_is fund_amount_is : List ℕ → Setting

-- The spellings that the usage text lists for an option.
abbrev pub spellings : Setting → List (List ℕ)
spellings (workers_are z) = codes "--workers" ∷ codes "-w" ∷ []
spellings (batch_size_is z) = codes "--batch-size" ∷ []
spellings (seed_key_is s) = codes "--seed-key" ∷ codes "-k" ∷ []
spellings (private_key_is s) = codes "--seed-private-key" ∷ codes "--private-key" ∷ codes "-p" ∷ []
spellings (rpc_is s) = codes "--rpc" ∷ codes "-r" ∷ []
spellings (chain_id_is s) = codes "--chain-id" ∷ []
spellings (denom_is s) = codes "--denom" ∷ []
spellings (fund_amount_is s) = codes "--fund-amount" ∷ []

-- The text of an option's value, the numbers in decimal.
abbrev pub value_text : Setting → List ℕ
value_text (workers_are z) = decimal_int z
value_text (batch_size_is z) = decimal_int z
value_text (seed_key_is s) = s
value_text (private_key_is s) = s
value_text (rpc_is s) = s
value_text (chain_id_is s) = s
value_text (denom_is s) = s
value_text (fund_amount_is s) = s

-- What an option asks for.
abbrev pub with_setting : Setting → Config → Config
with_setting (workers_are z) c = record c { workers = z }
with_setting (batch_size_is z) c = record c { batch_size = z }
with_setting (seed_key_is s) c = record c { seed_key = s }
with_setting (private_key_is s) c = record c { seed_private_key = s }
with_setting (rpc_is s) c = record c { rpc = s }
with_setting (chain_id_is s) c = record c { chain_id = s }
with_setting (denom_is s) c = record c { denom = s }
with_setting (fund_amount_is s) c = record c { fund_amount = s }

abbrev pub InRange : Setting → Type 0
InRange (workers_are z) = InInt64 z
InRange (batch_size_is z) = InInt64 z
InRange _ = Unit

abbrev pub IsOneOf : List ℕ → List (List ℕ) → Type 0
IsOneOf a [] = ⊥
IsOneOf a (n ∷ ns) = (a ≡ n) ⊎ IsOneOf a ns

-- A command line of options, and the configuration that it asks for.
abbrev pub written : List (List ℕ × Setting) → List (List ℕ)
written [] = []
written (o ∷ os) = o.0 ∷ value_text o.1 ∷ written os

abbrev pub asked_for : List (List ℕ × Setting) → Config → Config
asked_for [] c = c
asked_for (o ∷ os) c = asked_for os (with_setting o.1 c)

atoi_value-decimal_int : (z : ℤ) → InInt64 z → atoi_value (decimal_int z) ≡ z
unfolding atoi_value kept_value
atoi_value-decimal_int z h = ap (kept_value (decimal_int z)) (parse_int-decimal_int z h)

-- A text option is set by any of its spellings; a number's value is what `Atoi` reads.
scan-setting :
    (s : Setting) (a : List ℕ) (rest : List (List ℕ)) (c : Config)
    → IsOneOf a (spellings s)
    → InRange s
    → scan (a ∷ value_text s ∷ rest) c ≡ scan rest (with_setting s c)
unfolding scan flag_of set_flag
scan-setting (workers_are z) a rest c (inl q) h =
    ap (λ n. scan (n ∷ decimal_int z ∷ rest) c) q
    ∙ ap (λ v. scan rest (record c { workers = v })) (atoi_value-decimal_int z h)
scan-setting (workers_are z) a rest c (inr (inl q)) h =
    ap (λ n. scan (n ∷ decimal_int z ∷ rest) c) q
    ∙ ap (λ v. scan rest (record c { workers = v })) (atoi_value-decimal_int z h)
scan-setting (workers_are z) a rest c (inr (inr q)) h = absurd q
scan-setting (batch_size_is z) a rest c (inl q) h =
    ap (λ n. scan (n ∷ decimal_int z ∷ rest) c) q
    ∙ ap (λ v. scan rest (record c { batch_size = v })) (atoi_value-decimal_int z h)
scan-setting (batch_size_is z) a rest c (inr q) h = absurd q
scan-setting (seed_key_is s) a rest c (inl q) h = ap (λ n. scan (n ∷ s ∷ rest) c) q
scan-setting (seed_key_is s) a rest c (inr (inl q)) h = ap (λ n. scan (n ∷ s ∷ rest) c) q
scan-setting (seed_key_is s) a rest c (inr (inr q)) h = absurd q
scan-setting (private_key_is s) a rest c (inl q) h = ap (λ n. scan (n ∷ s ∷ rest) c) q
scan-setting (private_key_is s) a rest c (inr (inl q)) h = ap (λ n. scan (n ∷ s ∷ rest) c) q
scan-setting (private_key_is s) a rest c (inr (inr (inl q))) h = ap (λ n. scan (n ∷ s ∷ rest) c) q
scan-setting (private_key_is s) a rest c (inr (inr (inr q))) h = absurd q
scan-setting (rpc_is s) a rest c (inl q) h = ap (λ n. scan (n ∷ s ∷ rest) c) q
scan-setting (rpc_is s) a rest c (inr (inl q)) h = ap (λ n. scan (n ∷ s ∷ rest) c) q
scan-setting (rpc_is s) a rest c (inr (inr q)) h = absurd q
scan-setting (chain_id_is s) a rest c (inl q) h = ap (λ n. scan (n ∷ s ∷ rest) c) q
scan-setting (chain_id_is s) a rest c (inr q) h = absurd q
scan-setting (denom_is s) a rest c (inl q) h = ap (λ n. scan (n ∷ s ∷ rest) c) q
scan-setting (denom_is s) a rest c (inr q) h = absurd q
scan-setting (fund_amount_is s) a rest c (inl q) h = ap (λ n. scan (n ∷ s ∷ rest) c) q
scan-setting (fund_amount_is s) a rest c (inr q) h = absurd q

scan-written :
    (os : List (List ℕ × Setting)) (c : Config)
    → All (λ o. IsOneOf o.0 (spellings o.1) × InRange o.1) os
    → scan (written os) c ≡ some (asked_for os c)
scan-written [] c h = unfold scan in refl
scan-written ((a, s) ∷ os) c ((n, r), h) =
    scan-setting s a (written os) c n r ∙ scan-written os (with_setting s c) h

-- A command line of options, each with its value, is read as what it asks for: any options in any
-- order, each in any of its spellings and as often as wanted, where a later value replaces an earlier
-- one and an option that is not given keeps its default from the environment. A value is any text, one
-- like `--help` included, and a number is written in decimal and is one of 64 bits.
pub parse_args-written :
    (env : List ℕ → List ℕ) (os : List (List ℕ × Setting))
    → All (λ o. IsOneOf o.0 (spellings o.1) × InRange o.1) os
    → parse_args env (written os) ≡ some (asked_for os (default_config env))
unfolding parse_args
parse_args-written env os h = scan-written os (default_config env) h
