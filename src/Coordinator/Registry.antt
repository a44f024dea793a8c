-- ===== src/Coordinator/Registry.antt =====
-- The registry of workers (`registerRemoteWorker` and `unregisterRemoteWorker` of
-- pkg/loadtest/coordinator.go).
use perpx_load_test.Base.{
  ℕ, suc, ◌≤◌, ◌≡◌, refl, ◌⊎◌, inl, inr, Bool, true, false, String, str_eq, eq_iff, Option, none,
  some, List, [], ◌∷◌, arith, if◌then◌else◌, is_some, length, lookup, insert, delete, lookup-insert,
  lookup-delete, length-insert_new, length-delete-le, Bool-cases,
}
use perpx_load_test.Base.Int.{ℤ, pos, leb_ℤ, ◌≤ℤ◌}
use perpx_load_test.Coordinator.{Coordinator, is_full, register, unregister}

-- No ID twice in a map.
abbrev pub IsDistinct : {V : Type 0} → List (String × V) → Type 0
IsDistinct [] = Unit {0}
IsDistinct (e ∷ m) = (lookup e.0 m ≡ none) × IsDistinct m

pub insert-IsDistinct :
    {V : Type 0} (k : String) (v : V) (m : List (String × V))
    → IsDistinct m
    → IsDistinct (insert k v m)
insert-IsDistinct k v [] d = (refl, tt)
insert-IsDistinct k v (e ∷ m) d =
    ground (arith, insert-IsDistinct k v m d.1, lookup-insert k e.0 v m, eq_iff e.0 k, eq_iff k e.0)

pub delete-IsDistinct :
    {V : Type 0} (k : String) (m : List (String × V)) → IsDistinct m → IsDistinct (delete k m)
delete-IsDistinct k [] d = tt
delete-IsDistinct k (e ∷ m) d = ground (arith, delete-IsDistinct k m d.1, lookup-delete k e.0 m)

-- Distinct IDs, no more of them than workers are expected, and a total of transactions and one of
-- bytes for each.
pub record IsRegistry (c : Coordinator) : Type 0 where
  pub distinct : IsDistinct c.workers
  pub bounded : pos (length c.workers) ≤ℤ c.coord_cfg.expect_workers
  pub txs_known :
      (id : String)
      → is_some (lookup id c.workers) ≡ true
      → is_some (lookup id c.total_txs_per_worker) ≡ true
  pub bytes_known :
      (id : String)
      → is_some (lookup id c.workers) ≡ true
      → is_some (lookup id c.total_bytes_per_worker) ≡ true

known-insert :
    (k id : String) (w : ℕ) (z : ℤ) (m : List (String × ℕ)) (t : List (String × ℤ))
    → (is_some (lookup id m) ≡ true → is_some (lookup id t) ≡ true)
    → is_some (lookup id (insert k w m)) ≡ true
    → is_some (lookup id (insert k z t)) ≡ true
known-insert k id w z m t h q =
    let q' = rw (lookup-insert k id w m) at q in
    rw (lookup-insert k id z t) (by_key (str_eq k id) q')
  where
    by_key :
        (b : Bool)
        → is_some (if b then some w else lookup id m) ≡ true
        → is_some (if b then some z else lookup id t) ≡ true
    by_key true x = refl
    by_key false x = h x

known-delete :
    (k id : String) (m : List (String × ℕ)) (t : List (String × ℤ))
    → (is_some (lookup id m) ≡ true → is_some (lookup id t) ≡ true)
    → is_some (lookup id (delete k m)) ≡ true
    → is_some (lookup id t) ≡ true
known-delete k id m t h q = by_key (str_eq k id) (rw (lookup-delete k id m) at q)
  where
    by_key :
        (b : Bool) → is_some (if b then none else lookup id m) ≡ true → is_some (lookup id t) ≡ true
    by_key true x = cc
    by_key false x = h x

none_of_unset {ℓ} : {A : Type ℓ} (o : Option A) → is_some o ≡ false → o ≡ none
none_of_unset none h = refl
none_of_unset (some a) h = cc

room_left : (z : ℤ) (n : ℕ) → leb_ℤ z (pos n) ≡ false → pos (suc n) ≤ℤ z
room_left z n h = ground arith

-- Whether it accepts the worker or not, a registration keeps the registry.
pub register-IsRegistry :
    (id : String) (handle : ℕ) (c : Coordinator)
    → IsRegistry c
    → IsRegistry (register id handle c).0
unfolding register
register-IsRegistry id handle c v = elim (Bool-cases (is_full c)) [
  | inl full ↦ rw full v
  | inr room ↦ rw room (elim (Bool-cases (is_some (lookup id c.workers))) [
    | inl old ↦ rw old v
    | inr new ↦ rw new (record {
      distinct = insert-IsDistinct id handle c.workers v.distinct;
      bounded =
          rw (length-insert_new id handle c.workers (none_of_unset _ new))
            (room_left c.coord_cfg.expect_workers (length c.workers) room);
      txs_known = λ x. known-insert id x handle (pos 0) c.workers _ (v.txs_known x);
      bytes_known = λ x. known-insert id x handle (pos 0) c.workers _ (v.bytes_known x);
    })
  ])
]

shrink : (z : ℤ) (n m : ℕ) → m ≤ n → pos n ≤ℤ z → pos m ≤ℤ z
shrink z n m h k = omega arith

pub unregister-IsRegistry :
    (id : String) (c : Coordinator) → IsRegistry c → IsRegistry (unregister id c)
unfolding unregister
unregister-IsRegistry id c v = record {
  distinct = delete-IsDistinct id c.workers v.distinct;
  bounded = shrink c.coord_cfg.expect_workers _ _ (length-delete-le id c.workers) v.bounded;
  txs_known = λ x. known-delete id x c.workers _ (v.txs_known x);
  bytes_known = λ x. known-delete id x c.workers _ (v.bytes_known x);
}

-- `registerRemoteWorker` answers nil exactly when there is room and the ID is new, and then the ID
-- stands for the worker, no other ID is affected and there is one worker more; an error changes
-- nothing.
pub register-cases :
    (id : String) (handle : ℕ) (c : Coordinator)
    → ((is_full c ≡ false)
        × (lookup id c.workers ≡ none)
        × ((register id handle c).1 ≡ none)
        × ((x : String)
            → lookup x (register id handle c).0.workers
              ≡ (if str_eq id x then some handle else lookup x c.workers))
        × (length (register id handle c).0.workers ≡ suc (length c.workers)))
      ⊎ (((is_full c ≡ true) ⊎ (is_some (lookup id c.workers) ≡ true))
          × (is_some (register id handle c).1 ≡ true)
          × ((register id handle c).0 ≡ c))
unfolding register
register-cases id handle c = elim (Bool-cases (is_full c)) [
  | inl full ↦ rw full (inr (inl refl, refl, refl))
  | inr room ↦ rw room (elim (Bool-cases (is_some (lookup id c.workers))) [
    | inl old ↦ rw old (inr (inr refl, refl, refl))
    | inr new ↦
        let e = none_of_unset (lookup id c.workers) new in
        rw new (
          inl (
            refl,
            e,
            refl,
            (λ x. lookup-insert id x handle c.workers),
            length-insert_new id handle c.workers e,
          ))
  ])
]
