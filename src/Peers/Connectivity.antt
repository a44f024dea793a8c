-- ===== src/Peers/Connectivity.antt =====
-- How well the peers are connected (`getMinPeerConnectivity` of pkg/loadtest/tm_network_info.go).
use perpx_load_test.Base.{
  ℕ, zero, suc, ◌≤◌, ◌<◌, ◌≡◌, refl, ◌∙◌, ◌⊎◌, inl, inr, Bool, true, ◌&&◌, String, some, List, [],
  ◌∷◌, arith, if◌then◌else◌, ltb, length, All, get_elem?,
}
use perpx_load_test.Peers.{PeerInfo, lower_by, min_from, min_peer_connectivity}

-- A peer that counts: it has been queried and has named others.
abbrev pub Counts : PeerInfo → Type 0
Counts p = (p.queried ≡ true) × (0 < length p.peer_addrs)

lower_by-le : (p : PeerInfo) (m : ℕ) → lower_by p m ≤ m
unfolding lower_by
lower_by-le p m = ground arith

lower_by-Counts : (p : PeerInfo) (m : ℕ) → Counts p → lower_by p m ≤ length p.peer_addrs
unfolding lower_by
lower_by-Counts p m (q, h) = ground arith

lower_by-cases :
    (p : PeerInfo) (m : ℕ) → (lower_by p m ≡ m) ⊎ (Counts p × (lower_by p m ≡ length p.peer_addrs))
unfolding lower_by
lower_by-cases p m = by_test p.queried (length p.peer_addrs) m
  where
    by_test :
        (b : Bool) (n m : ℕ)
        → ((if b && ltb 0 n && ltb n m then n else m) ≡ m)
          ⊎ (((b ≡ true) × (0 < n)) × ((if b && ltb 0 n && ltb n m then n else m) ≡ n))
    by_test b n m = ground arith

min_from-le : (peers : List (String × PeerInfo)) (m : ℕ) → min_from peers m ≤ m
unfolding min_from
min_from-le [] m = omega arith
min_from-le (e ∷ peers) m = omega (arith, min_from-le peers (lower_by e.1 m), lower_by-le e.1 m)

-- No peer that counts has named fewer.
abbrev pub IsLower : ℕ → List (String × PeerInfo) → Type 0
IsLower k peers = All (λ e. Counts e.1 → k ≤ length e.1.peer_addrs) peers

-- Some peer that counts has named just so many.
abbrev pub IsReached : ℕ → List (String × PeerInfo) → Type 0
IsReached k peers =
    (i : ℕ) × (e : String × PeerInfo) × (get_elem? peers i ≡ some e)
    × Counts e.1
    × (k ≡ length e.1.peer_addrs)

min_from-IsLower : (peers : List (String × PeerInfo)) (m : ℕ) → IsLower (min_from peers m) peers
unfolding min_from
min_from-IsLower [] m = tt
min_from-IsLower (e ∷ peers) m = (
  (λ c. omega (arith, min_from-le peers (lower_by e.1 m), lower_by-Counts e.1 m c)),
  min_from-IsLower peers (lower_by e.1 m),
)

min_from-cases :
    (peers : List (String × PeerInfo)) (m : ℕ)
    → (min_from peers m ≡ m) ⊎ IsReached (min_from peers m) peers
unfolding min_from
min_from-cases [] m = inl refl
min_from-cases (e ∷ peers) m = elim (min_from-cases peers (lower_by e.1 m)) [
  | inr (i, d, q, c, k) ↦ inr (suc i, d, q, c, k)
  | inl q ↦ elim (lower_by-cases e.1 m) [
    | inl h ↦ inl (q ∙ h)
    | inr (c, h) ↦ inr (zero, e, refl, c, q ∙ h)
  ]
]

-- The connectivity of a map is a lower bound of how many others each peer has named that has been
-- queried and has named any, and of the number of peers, and it is one of these numbers.
pub min_peer_connectivity-IsLower :
    (peers : List (String × PeerInfo))
    → IsLower (min_peer_connectivity peers) peers
      × (min_peer_connectivity peers ≤ length peers)
      × ((min_peer_connectivity peers ≡ length peers)
          ⊎ IsReached (min_peer_connectivity peers) peers)
unfolding min_peer_connectivity
min_peer_connectivity-IsLower peers = (
  min_from-IsLower peers (length peers),
  min_from-le peers (length peers),
  min_from-cases peers (length peers),
)
