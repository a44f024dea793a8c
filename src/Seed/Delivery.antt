-- ===== src/Seed/Delivery.antt =====
-- pkg/seed/seed.go: the batches of `seedAccounts`, its last check, and `Run`.
use perpx_load_test.Base.{
  ℕ, zero, suc, ◌+◌, ◌*◌, ◌%◌, Bool, true, false, not, ◌&&◌, Option, none, some, List, [], ◌∷◌,
  if◌then◌else◌, ◌==◌, length, map, take, drop, codes, same, Result, ok, err, ◌>>=◌, ◌++◌,
}
use perpx_load_test.Base.Int.{ℤ, pos, negsuc, eqb_ℤ, from_pattern, two64}
use perpx_load_test.Seed.{
  Config, SeedFailure, bad_messages, not_signed, not_encoded, no_connection, no_broadcast, refused,
  failed_in_block, not_included, not_all_funded, negative_coin, bad_denom, negative_length,
  bad_slice, divided_by_zero, rest_url, grpc_addr, parse_args,
}
use perpx_load_test.Seed.Funding.{
  Coin, Message, Tx, TxStatus, Get, unreachable, response, Sdk, Node, Plan, scale, new_coin,
  low_ones, plan,
}

-- What the loop over the needed accounts ends with.
pub data Ending : Type 0 where
  finished : Ending
  failed : SeedFailure → Ending
  no_fuel : Ending

-- The transactions that have been handed to the node, and the end.
pub record Funded : Type 0 where
  pub txs : List Tx
  pub ending : Ending

unfoldable pub cons_tx : Tx → Funded → Funded
cons_tx tx f = record { txs = tx ∷ f.txs; ending = f.ending }

unfoldable pub message_to : List ℕ → Coin → List ℕ → Message
message_to from coin to = record { sender = from; recipient = to; amount = coin }

-- The gas limit of so many messages, as a `uint64`.
unfoldable pub gas_for : ℕ → ℕ
gas_for n = 100_000 * n % two64

-- A batch, from the accounts that are left.
unfoldable pub batch_of : ℤ → List (List ℕ) → Result SeedFailure (List (List ℕ))
batch_of (negsuc n) rest = err bad_slice
batch_of (pos n) rest = ok (take n rest)

-- The accounts after a batch.
unfoldable pub after_batch : ℤ → List (List ℕ) → List (List ℕ)
after_batch (negsuc n) rest = rest
after_batch (pos n) rest = drop n rest

unfoldable pub next_sequence : ℕ → ℕ
next_sequence seq = (seq + 1) % two64

module _ (sdk : Sdk) (node : Node) (c : Config) where
  unfoldable pub tx_for : Plan → ℕ → List (List ℕ) → ℕ → Tx
  unfolding message_to gas_for
  tx_for p seq batch fee = record {
    messages = map (message_to (sdk.address p.secret) p.coin) batch;
    fee = record { coin_denom = c.denom; coin_amount = fee };
    gas_limit = gas_for (length batch);
    chain = c.chain_id;
    number = p.account.0;
    sequence = seq;
  }

  unfoldable pub signed : Plan → Tx → Result SeedFailure (List ℕ)
  signed p tx = elim (sdk.sign p.secret tx) [
    | none ↦ err not_signed
    | some s ↦ elim (sdk.encode tx s) [ none ↦ err not_encoded | some bytes ↦ ok bytes ]
  ]

  unfoldable pub dialled : Tx → List ℕ → Result SeedFailure (Tx × List ℕ)
  dialled tx bytes = if not (node.dial (grpc_addr c.rpc)) then err no_connection else ok (tx, bytes)

  unfoldable pub sealed : Plan → Tx → Result SeedFailure (Tx × List ℕ)
  unfolding signed dialled
  sealed p tx = signed p tx >>= dialled tx

  unfoldable pub fee_for : ℕ → Result SeedFailure ℕ
  unfolding new_coin scale gas_for
  fee_for n = new_coin sdk node c c.denom (scale 25_000_000_000 (from_pattern (gas_for n)))

  -- What comes before the broadcast.
  unfoldable pub prepare : Plan → ℕ → List (List ℕ) → Result SeedFailure (Tx × List ℕ)
  unfolding tx_for sealed fee_for
  prepare p seq batch =
      if not (sdk.set_messages (tx_for p seq batch 0).messages)
      then err bad_messages
      else (fee_for (length batch) >>= λ fee. sealed p (tx_for p seq batch fee))

  -- A status is only looked at once it has a height.
  unfoldable pub has_height : TxStatus → Bool
  has_height s = not (same s.height []) && not (same s.height (codes "0"))

  unfoldable pub status_in : Get → Option TxStatus
  unfolding has_height
  status_in unreachable = none
  status_in (response status body) =
      if status == 200
      then elim (sdk.decode_status body) [
        | none ↦ none
        | some s ↦ if has_height s then some s else none
      ]
      else none

  unfoldable pub block_failure : TxStatus → Option SeedFailure
  block_failure s = if not (eqb_ℤ s.code (pos 0)) then some (failed_in_block s.code) else none

  -- The loop that waits for the block; the list ends with the time.
  unfoldable pub await : List Get → Option SeedFailure
  unfolding status_in block_failure
  await [] = some not_included
  await (g ∷ rest) = elim (status_in g) [ none ↦ await rest | some s ↦ block_failure s ]

  unfoldable pub answered : ℕ → ℤ × List ℕ → Option SeedFailure
  unfolding await
  answered round (code, hash) =
      if not (eqb_ℤ code (pos 0))
      then some (refused code)
      else if eqb_ℤ c.batch_size (pos 0)
      then some divided_by_zero
      else await (node.polls round (rest_url c.rpc ++ codes "/cosmos/tx/v1beta1/txs/" ++ hash))

  -- What comes of the broadcast of a round.
  unfoldable pub deliver : ℕ → Option (ℤ × List ℕ) → Option SeedFailure
  unfolding answered
  deliver round none = some no_broadcast
  deliver round (some a) = answered round a

  unfoldable pub sent_with : Tx → Funded → Option SeedFailure → Funded
  unfolding cons_tx
  sent_with tx later none = cons_tx tx later
  sent_with tx later (some e) = record { txs = tx ∷ []; ending = failed e }

  -- A round, with what the later rounds give.
  unfoldable pub fund_with : ℕ → Funded → Result SeedFailure (Tx × List ℕ) → Funded
  unfolding sent_with deliver
  fund_with round later (err e) = record { txs = []; ending = failed e }
  fund_with round later (ok (tx, bytes)) =
      sent_with tx later (deliver round (node.broadcast round bytes))

  -- The loop over the batches, with the accounts that are left.
  unfoldable pub fund_from : ℕ → ℕ → ℕ → Plan → List (List ℕ) → Funded
  unfolding batch_of after_batch prepare fund_with next_sequence
  fund_from fuel round seq p [] = record { txs = []; ending = finished }
  fund_from zero round seq p (a ∷ rest) = record { txs = []; ending = no_fuel }
  fund_from (suc fuel) round seq p (a ∷ rest) =
      let later =
        fund_from fuel (suc round) (next_sequence seq) p (after_batch c.batch_size (a ∷ rest)) in
      fund_with round later (batch_of c.batch_size (a ∷ rest) >>= λ batch. prepare p seq batch)

  -- The last check.
  unfoldable pub verified : Result SeedFailure (List (List ℕ)) → Ending
  verified (err e) = failed e
  verified (ok []) = finished
  verified (ok (a ∷ rest)) = failed not_all_funded

  unfoldable pub verify_after : Plan → Ending → Ending
  unfolding verified
  verify_after p finished = verified (low_ones sdk node c node.after p.coin.coin_amount p.needs)
  verify_after p (failed e) = failed e
  verify_after p no_fuel = no_fuel

  -- The loop with the rest of `seedAccounts`; every batch that is delivered funds an account.
  unfoldable pub fund_needs : Plan → List (List ℕ) → Funded
  unfolding fund_from verify_after
  fund_needs p [] = record { txs = []; ending = finished }
  fund_needs p (a ∷ rest) =
      let loop = fund_from (length (a ∷ rest)) 0 p.account.1 p (a ∷ rest) in
      record { txs = loop.txs; ending = verify_after p loop.ending }

  unfoldable pub fund_planned : Plan → Funded
  unfolding fund_needs
  fund_planned p = fund_needs p p.needs

  unfoldable pub seed_planned : Result SeedFailure Plan → Funded
  unfolding fund_planned
  seed_planned (err e) = record { txs = []; ending = failed e }
  seed_planned (ok p) = fund_planned p

  unfoldable pub seed_accounts : Funded
  unfolding seed_planned plan
  seed_accounts = seed_planned (plan sdk node c)

unfoldable pub is_panic : SeedFailure → Bool
is_panic negative_coin = true
is_panic bad_denom = true
is_panic negative_length = true
is_panic bad_slice = true
is_panic divided_by_zero = true
is_panic _ = false

-- The exit code; a panic exits with 2.
unfoldable pub exit_code : Ending → Option ℕ
unfolding is_panic
exit_code finished = some 0
exit_code (failed e) = if is_panic e then some 2 else some 1
exit_code no_fuel = none

-- `Run`: the transactions handed to the node, and the exit code.
unfoldable pub run : Sdk → Node → (List ℕ → List ℕ) → List (List ℕ) → List Tx × Option ℕ
unfolding parse_args seed_accounts exit_code
run sdk node env args = elim (parse_args env args) [
  | none ↦ ([], some 0)
  | some c ↦ ((seed_accounts sdk node c).txs, exit_code (seed_accounts sdk node c).ending)
]
