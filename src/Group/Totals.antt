-- ===== src/Group/Totals.antt =====
-- The sum of the counts of a group, pkg/loadtest/transactor_group.go.
use perpx_load_test.Base.{
  ℕ, zero, suc, ◌+◌, ◌*◌, ◌==◌, ◌≤◌, ◌<◌, ◌≡◌, refl, sym, ap, subst, ◌∙◌, String, Bool, false,
  Option, none, some, List, [], ◌∷◌, ◌++◌, arith, length, append_nil, append_assoc, All,
}
use perpx_load_test.Base.Int.{ℤ, pos, pos_part, add_int64, add_int64_pos, two63}
use perpx_load_test.Config.{Config}
use perpx_load_test.Protocol.{Failure}
use perpx_load_test.Transactor.{Transactor, Event, new_transactor}
use perpx_load_test.Transactor.Limit.{HasLimit, IsWithin, run-IsWithin}
use perpx_load_test.Group.{
  Group, set_at, track, track_each, run_each, numbered, sum_at, close_all, add, and_then, add_n,
  add_each,
}
use perpx_load_test.Group.Adding.{fresh}

-- The counts of transactors, with their numbers from `k` on.
abbrev pub listed : ℕ → List Transactor → List (ℕ × ℤ)
listed k [] = []
listed k (t ∷ ts) = (k, t.tx_count) ∷ listed (suc k) ts

-- Entries whose keys are all below `k`.
abbrev pub Below : ℕ → List (ℕ × ℤ) → Type 0
Below k m = All (λ e. e.0 < k) m

set_at-append : (k : ℕ) (v : ℤ) (m : List (ℕ × ℤ)) → Below k m → set_at k v m ≡ m ++ ((k, v) ∷ [])
set_at-append k v [] h = refl
set_at-append k v (e ∷ m) (lt, h) =
    let ne : (e.0 == k) ≡ false = ground arith in rw ne (ap (λ r. e ∷ r) (set_at-append k v m h))

-- `n` transactors at most, each with a count of at most `c`.
abbrev pub AllWithin : ℕ → ℕ → List Transactor → Type 0
AllWithin n r ts = All (IsWithin n r) ts

pub fresh-AllWithin :
    (n r : ℕ) (c : Config) (k m : ℕ) → HasLimit n r c → AllWithin n r (fresh c k m)
unfolding numbered new_transactor
fresh-AllWithin n r c k zero l = tt
fresh-AllWithin n r c k (suc m) l = (
  (0, record { has_limit = l; count = refl; within = omega arith }),
  fresh-AllWithin n r c (suc k) m l,
)

pub run_each-AllWithin :
    (n r : ℕ) (es : List (List Event)) (ts : List Transactor)
    → AllWithin n r ts
    → AllWithin n r (run_each es ts) × (length (run_each es ts) ≡ length ts)
unfolding run_each
run_each-AllWithin n r [] ts v = (v, refl)
run_each-AllWithin n r (es ∷ rest) [] v = (tt, refl)
run_each-AllWithin n r (es ∷ rest) (t ∷ ts) (v, vs) =
    let (w, q) = run_each-AllWithin n r rest ts vs in ((run-IsWithin t es v, w), ap suc q)

Below-snoc : (k : ℕ) (v : ℤ) (m : List (ℕ × ℤ)) → Below k m → Below (suc k) (m ++ ((k, v) ∷ []))
Below-snoc k v [] h = (omega arith, tt)
Below-snoc k v (e ∷ m) (lt, h) = (omega arith, Below-snoc k v m h)

pub track_each-listed :
    (ts : List Transactor) (k : ℕ) (g : Group)
    → Below k g.tx_counts
    → (track_each k ts g).tx_counts ≡ g.tx_counts ++ listed k ts
unfolding track_each track
track_each-listed [] k g h = append_nil g.tx_counts
track_each-listed (t ∷ ts) k g h =
    let e = set_at-append k t.tx_count g.tx_counts h in
    let below : Below (suc k) (set_at k t.tx_count g.tx_counts) =
      subst (Below (suc k)) (sym e) (Below-snoc k t.tx_count g.tx_counts h) in
    track_each-listed ts (suc k) (track k t.tx_count t.tx_bytes g) below
    ∙ ap (λ m. m ++ listed (suc k) ts) e
    ∙ append_assoc g.tx_counts ((k, t.tx_count) ∷ []) (listed (suc k) ts)

pub sum_within :
    (n r : ℕ) (ts : List Transactor) (k a : ℕ)
    → AllWithin n r ts
    → a + length ts * n < two63
    → (j : ℕ) × ((sum_at (pos a) (listed k ts) ≡ pos j) × (j ≤ a + length ts * n))
unfolding sum_at
sum_within n r [] k a v h = (a, (refl, omega arith))
sum_within n r (t ∷ ts) k a ((m, c), vs) h =
    let product : suc (length ts) * n ≡ n + length ts * n = grind arith in
    let lt : a + m < two63 = omega (arith, product, h, c.within) in
    let (j, (q, le)) = sum_within n r ts (suc k) (a + m) vs (omega (arith, product, h, c.within)) in
    let e : add_int64 (pos a) t.tx_count ≡ pos (a + m) =
      ap (add_int64 (pos a)) c.count ∙ add_int64_pos a m lt in
    (j, (ap (λ z. sum_at z (listed (suc k) ts)) e ∙ q, omega (arith, le, product, c.within)))

-- Adding tracks nothing.
abbrev pub Untracked : Group × Option Failure → Type 0
Untracked a = a.0.tx_counts ≡ []

and_then-Untracked :
    (a : Group × Option Failure) (f : Group → Group × Option Failure)
    → Untracked a
    → ((g : Group) → g.tx_counts ≡ [] → Untracked (f g))
    → Untracked (and_then a f)
unfolding and_then
and_then-Untracked (g, some e) f v k = v
and_then-Untracked (g, none) f v k = k g v

add-Untracked :
    (o : Option Failure) (closes : ℕ → Bool) (c : Config) (g : Group)
    → g.tx_counts ≡ []
    → Untracked (add o closes c g)
unfolding add close_all
add-Untracked (some e) closes c g v = v
add-Untracked none closes c g v = v

add_n-Untracked :
    (refused : ℕ → Option Failure) (closes : ℕ → Bool) (c : Config) (n : ℕ) (g : Group)
    → g.tx_counts ≡ []
    → Untracked (add_n refused closes c n g)
unfolding add_n
add_n-Untracked refused closes c zero g v = v
add_n-Untracked refused closes c (suc n) g v =
    and_then-Untracked (add (refused (length g.transactors)) closes c g) _
      (add-Untracked (refused (length g.transactors)) closes c g v)
      (λ g' w. add_n-Untracked refused closes c n g' w)

pub add_each-Untracked :
    (refused : ℕ → Option Failure) (closes : ℕ → Bool) (c : Config) (es : List String) (g : Group)
    → g.tx_counts ≡ []
    → Untracked (add_each refused closes c es g)
unfolding add_each
add_each-Untracked refused closes c [] g v = v
add_each-Untracked refused closes c (e ∷ es) g v =
    and_then-Untracked (add_n refused closes c (pos_part c.connections) g) _
      (add_n-Untracked refused closes c (pos_part c.connections) g v)
      (λ g' w. add_each-Untracked refused closes c es g' w)
