-- ===== src/Group/Waiting.antt =====
-- What `Wait` of pkg/loadtest/transactor_group.go leaves and returns.
use perpx_load_test.Base.{
  ℕ, zero, suc, ◌+◌, ◌==◌, ◌<◌, ◌≡◌, ◌↔◌, refl, ap, subst, ◌∙◌, Option, none, some, List, [], ◌∷◌,
  arith, get_elem?, All, if◌then◌else◌,
}
use perpx_load_test.Base.Int.{ℤ}
use perpx_load_test.Transactor.{Transactor, StopError}
use perpx_load_test.Group.{Group, set_at, at, track, track_each, earlier, first_failure, wait}

at-set_at :
    (k x : ℕ) (v : ℤ) (m : List (ℕ × ℤ)) → at x (set_at k v m) ≡ (if k == x then some v else at x m)
at-set_at k x v [] = refl
at-set_at k x v (e ∷ m) = ground (arith, at-set_at k x v m)

set_here : (k : ℕ) (v : ℤ) (m : List (ℕ × ℤ)) → at k (set_at k v m) ≡ some v
set_here k v m = at-set_at k k v m ∙ ground arith

set_elsewhere : (k x : ℕ) (v : ℤ) (m : List (ℕ × ℤ)) → x < k → at x (set_at k v m) ≡ at x m
set_elsewhere k x v m h = at-set_at k x v m ∙ ground arith

-- The counts of a transactor are what the maps hold under a number.
abbrev pub IsTracked : ℕ → Transactor → Group → Type 0
IsTracked k t g = (at k g.tx_counts ≡ some t.tx_count) × (at k g.tx_bytes ≡ some t.tx_bytes)

track_each-keeps :
    (ts : List Transactor) (k x : ℕ) (g : Group)
    → x < k
    → (at x (track_each k ts g).tx_counts ≡ at x g.tx_counts)
      × (at x (track_each k ts g).tx_bytes ≡ at x g.tx_bytes)
unfolding track_each track
track_each-keeps [] k x g h = (refl, refl)
track_each-keeps (t ∷ ts) k x g h =
    let (p, q) = track_each-keeps ts (suc k) x (track k t.tx_count t.tx_bytes g) (omega arith) in
    (p ∙ set_elsewhere k x t.tx_count g.tx_counts h, q ∙ set_elsewhere k x t.tx_bytes g.tx_bytes h)

some_eq : (u t : Transactor) → some u ≡ some t → u ≡ t
some_eq u t h = cc

track_each-IsTracked :
    (ts : List Transactor) (k i : ℕ) (t : Transactor) (g : Group)
    → get_elem? ts i ≡ some t
    → IsTracked (k + i) t (track_each k ts g)
unfolding track_each track
track_each-IsTracked [] k i t g h = cc
track_each-IsTracked (u ∷ ts) k zero t g h =
    let (p, q) =
      track_each-keeps ts (suc k) (k + 0) (track k u.tx_count u.tx_bytes g) (omega arith) in
    (
      p
          ∙ ap (λ j. at j (set_at k u.tx_count g.tx_counts)) k0
          ∙ set_here k u.tx_count g.tx_counts
          ∙ ap (λ o. some o.tx_count) (some_eq u t h),
      q
          ∙ ap (λ j. at j (set_at k u.tx_bytes g.tx_bytes)) k0
          ∙ set_here k u.tx_bytes g.tx_bytes
          ∙ ap (λ o. some o.tx_bytes) (some_eq u t h),
    )
  where
    k0 : k + 0 ≡ k
    k0 = omega arith
track_each-IsTracked (u ∷ ts) k (suc i) t g h =
    subst (λ j. IsTracked j t (track_each (suc k) ts (track k u.tx_count u.tx_bytes g)))
      (omega arith) (track_each-IsTracked ts (suc k) i t (track k u.tx_count u.tx_bytes g) h)

-- No transactor has stopped with an error.
abbrev pub AllClean : List Transactor → Type 0
AllClean ts = All (λ t. perpx_load_test.Transactor.wait t ≡ none) ts

earlier-none :
    (a b : Option StopError)
    → (earlier a b ≡ none → (a ≡ none) × (b ≡ none)) × (a ≡ none → b ≡ none → earlier a b ≡ none)
unfolding earlier
earlier-none none b = ((λ h. (refl, h)), (λ h k. k))
earlier-none (some e) b = ((λ h. cc), (λ h k. cc))

first_failure-AllClean : (ts : List Transactor) → (first_failure ts ≡ none) ↔ AllClean ts
unfolding first_failure
first_failure-AllClean [] = ((λ h. tt), (λ h. refl))
first_failure-AllClean (t ∷ ts) =
    let (f, b) = first_failure-AllClean ts in
    let (p, q) = earlier-none (perpx_load_test.Transactor.wait t) (first_failure ts) in
    ((λ h. ((p h).0, f (p h).1)), (λ h. q h.0 (b h.1)))

-- What holds once `Wait` has returned.
pub record IsFinal (g : Group) : Type 0 where
  pub tracked :
      (i : ℕ) (t : Transactor) → get_elem? g.transactors i ≡ some t → IsTracked i t (wait g).0
  pub clean : ((wait g).1 ≡ none) ↔ AllClean g.transactors

-- Whatever was tracked before, when `Wait` returns the maps hold the final counts of transactions and
-- bytes of every transactor of the group under its number; and it returns nil exactly where no
-- transactor has stopped with an error.
pub wait-IsFinal : (g : Group) → IsFinal g
unfolding wait
wait-IsFinal g = record {
  tracked = λ i t h.
      subst (λ j. IsTracked j t (track_each 0 g.transactors g)) (omega arith)
        (track_each-IsTracked g.transactors 0 i t g h);
  clean = first_failure-AllClean g.transactors;
}
