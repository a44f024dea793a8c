-- ===== src/Tui/Sums.antt =====
-- Sums over a map of values, as the loops of `startStandaloneTUI` (pkg/loadtest/tui.go) take them.
use perpx_load_test.Base.{
  ℕ, ◌≡◌, refl, sym, ap, ◌∙◌, inl, inr, Bool, true, false, String, str_eq, Option, some, List, [],
  ◌∷◌, Bool-cases, lookup, insert, lookup-insert, get_or, eq_iff, if◌then◌else◌,
}
use perpx_load_test.Base.Int.{ℤ, pos, add_int64}
use perpx_load_test.Base.Modular.{add_int64_assoc, add_int64_swap, add_int64-from_zero}
use perpx_load_test.Group.{sum_at}
use perpx_load_test.Tui.{
  Agg, agg_or_zero, add_counts, aggregate, sum_aggs, insert_sorted, sorted, leb_key, by_endpoint,
  total_of, Snapshot,
}

-- The sum of the transactions of the endpoints.
abbrev pub txs_from : ℤ → List (String × Agg) → ℤ
txs_from acc [] = acc
txs_from acc (e ∷ m) = txs_from (add_int64 acc e.1.tx) m

pub sum_aggs-txs : (m : List (String × Agg)) (acc : Agg) → (sum_aggs acc m).tx ≡ txs_from acc.tx m
unfolding sum_aggs
sum_aggs-txs [] acc = refl
sum_aggs-txs (e ∷ m) acc = sum_aggs-txs m _

txs_from-shift :
    (acc x : ℤ) (m : List (String × Agg))
    → txs_from (add_int64 acc x) m ≡ add_int64 (txs_from acc m) x
txs_from-shift acc x [] = refl
txs_from-shift acc x (e ∷ m) =
    ap (λ k. txs_from k m) (add_int64_swap acc x e.1.tx) ∙ txs_from-shift (add_int64 acc e.1.tx) x m

-- A value that has grown by `x` makes the sum grow by `x`.
txs_from-insert :
    (acc x : ℤ) (k : String) (v : Agg) (m : List (String × Agg))
    → v.tx ≡ add_int64 (agg_or_zero (lookup k m)).tx x
    → txs_from acc (insert k v m) ≡ add_int64 (txs_from acc m) x
txs_from-insert acc x k v [] h = ap (add_int64 acc) h ∙ add_int64-from_zero acc x
txs_from-insert acc x k v (e ∷ m) h = elim (Bool-cases (str_eq e.0 k)) [
  | inl q ↦ rw q (
      ap (λ z. txs_from (add_int64 acc z) m) (rw q at h)
      ∙ ap (λ z. txs_from z m) (sym (add_int64_assoc acc e.1.tx x))
      ∙ txs_from-shift (add_int64 acc e.1.tx) x m)
  | inr q ↦ rw q (txs_from-insert (add_int64 acc e.1.tx) x k v m (rw q at h))
]

add_counts-txs :
    (ep : String) (txs b : ℤ) (m : List (String × Agg))
    → txs_from (pos 0) (add_counts ep txs b m) ≡ add_int64 (txs_from (pos 0) m) txs
unfolding add_counts
add_counts-txs ep txs b m = txs_from-insert (pos 0) txs ep _ m refl

aggregate-txs :
    (addrs : List String) (bs counts : List (ℕ × ℤ)) (m : List (String × Agg))
    → txs_from (pos 0) (aggregate addrs bs counts m) ≡ sum_at (txs_from (pos 0) m) counts
unfolding aggregate sum_at
aggregate-txs addrs bs [] m = refl
aggregate-txs addrs bs ((id, txs) ∷ counts) m =
    aggregate-txs addrs bs counts _
    ∙ ap (λ z. sum_at z counts) (add_counts-txs (get_or addrs id "unknown") txs _ m)

pub total_of-txs : (s : Snapshot) → (total_of s).tx ≡ sum_at (pos 0) s.tx_counts
total_of-txs s = sum_aggs-txs (by_endpoint s) _ ∙ aggregate-txs s.addrs s.tx_bytes s.tx_counts []

-- The sum of the transactors at one endpoint, in the order of the map.
abbrev pub share_from : List String → String → ℤ → List (ℕ × ℤ) → ℤ
share_from addrs ep acc [] = acc
share_from addrs ep acc ((id, txs) ∷ counts) =
    share_from addrs ep (if str_eq (get_or addrs id "unknown") ep then add_int64 acc txs else acc)
      counts

tx_if :
    (b : Bool) (v : Agg) (o : Option Agg)
    → (agg_or_zero (if b then some v else o)).tx ≡ (if b then v.tx else (agg_or_zero o).tx)
tx_if true v o = refl
tx_if false v o = refl

same_key :
    (b : Bool) (k ep : String) (m : List (String × Agg)) (x : ℤ)
    → (b ≡ true → k ≡ ep)
    → (if b then add_int64 (agg_or_zero (lookup k m)).tx x else (agg_or_zero (lookup ep m)).tx)
      ≡ (if b then add_int64 (agg_or_zero (lookup ep m)).tx x else (agg_or_zero (lookup ep m)).tx)
same_key true k ep m x h = ap (λ y. add_int64 (agg_or_zero (lookup y m)).tx x) (h refl)
same_key false k ep m x h = refl

add_counts-share :
    (k ep : String) (txs b : ℤ) (m : List (String × Agg))
    → (agg_or_zero (lookup ep (add_counts k txs b m))).tx ≡ (
        if str_eq k ep
        then add_int64 (agg_or_zero (lookup ep m)).tx txs
        else (agg_or_zero (lookup ep m)).tx)
unfolding add_counts
add_counts-share k ep txs b m =
    ap (λ o. (agg_or_zero o).tx) (lookup-insert k ep _ m)
    ∙ tx_if (str_eq k ep) _ (lookup ep m)
    ∙ same_key (str_eq k ep) k ep m txs (eq_iff k ep).0

pub aggregate-share :
    (addrs : List String) (bs counts : List (ℕ × ℤ)) (ep : String) (m : List (String × Agg))
    → (agg_or_zero (lookup ep (aggregate addrs bs counts m))).tx
      ≡ share_from addrs ep (agg_or_zero (lookup ep m)).tx counts
unfolding aggregate
aggregate-share addrs bs [] ep m = refl
aggregate-share addrs bs ((id, txs) ∷ counts) ep m =
    aggregate-share addrs bs counts ep _
    ∙ ap (λ z. share_from addrs ep z counts)
        (add_counts-share (get_or addrs id "unknown") ep txs _ m)

insert_sorted-txs :
    (acc : ℤ) (e : String × Agg) (m : List (String × Agg))
    → txs_from acc (insert_sorted e m) ≡ txs_from (add_int64 acc e.1.tx) m
unfolding insert_sorted
insert_sorted-txs acc e [] = refl
insert_sorted-txs acc e (x ∷ xs) = elim (Bool-cases (leb_key e x)) [
  | inl q ↦ rw q refl
  | inr q ↦ rw q (
      insert_sorted-txs (add_int64 acc x.1.tx) e xs
      ∙ ap (λ z. txs_from z xs) (add_int64_swap acc x.1.tx e.1.tx))
]

-- The order of the table does not change the sum.
pub sorted-txs : (acc : ℤ) (m : List (String × Agg)) → txs_from acc (sorted m) ≡ txs_from acc m
unfolding sorted
sorted-txs acc [] = refl
sorted-txs acc (e ∷ m) = insert_sorted-txs acc e (sorted m) ∙ sorted-txs (add_int64 acc e.1.tx) m
