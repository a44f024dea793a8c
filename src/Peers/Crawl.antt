-- ===== src/Peers/Crawl.antt =====
-- The map of known peers (`resolvePeerMap` and `getMinPeerConnectivity` of
-- pkg/loadtest/tm_network_info.go).
use perpx_load_test.Base.{
  ◌≡◌, refl, sym, ap, ◌∙◌, inl, inr, Bool, true, false, String, str_eq, eq_iff, none, some, List,
  [], ◌∷◌, arith, if◌then◌else◌, is_some, lookup, insert, lookup-insert, Bool-cases, All,
}
use perpx_load_test.Coordinator.Registry.{IsDistinct}
use perpx_load_test.Peers.{PeerInfo, named, add_named, resolve_from, resolve_peer_map}

insert_other :
    {V : Type 0} (k x : String) (v : V) (m : List (String × V))
    → str_eq k x ≡ false
    → lookup x (insert k v m) ≡ lookup x m
insert_other k x v m h = lookup-insert k x v m ∙ rw h refl

insert_same :
    {V : Type 0} (k : String) (v : V) (m : List (String × V)) → lookup k (insert k v m) ≡ some v
insert_same k v m = lookup-insert k k v m ∙ ground (arith, eq_iff k k)

-- What a map holds stays when a name is added that it may hold already.
named-keeps :
    (a x : String) (p : PeerInfo) (m : List (String × PeerInfo))
    → lookup x m ≡ some p
    → lookup x (if is_some (lookup a m) then m else insert a (named a) m) ≡ some p
named-keeps a x p m h = elim (Bool-cases (is_some (lookup a m))) [
  | inl e ↦ rw e h
  | inr e ↦ rw e (lookup-insert a x (named a) m ∙ ground (arith, eq_iff a x))
]

add_named-keeps :
    (names : List String) (x : String) (p : PeerInfo) (m : List (String × PeerInfo))
    → lookup x m ≡ some p
    → lookup x (add_named names m) ≡ some p
unfolding add_named
add_named-keeps [] x p m h = h
add_named-keeps (a ∷ names) x p m h = add_named-keeps names x p _ (named-keeps a x p m h)

resolve_from-keeps :
    (peers : List (String × PeerInfo)) (x : String) (p : PeerInfo) (m : List (String × PeerInfo))
    → lookup x peers ≡ none
    → lookup x m ≡ some p
    → lookup x (resolve_from peers m) ≡ some p
unfolding resolve_from
resolve_from-keeps [] x p m n h = h
resolve_from-keeps (e ∷ peers) x p m n h = elim (Bool-cases (str_eq e.0 x)) [
  | inl q ↦ let n' = rw q at n in cc
  | inr q ↦
      resolve_from-keeps peers x p _ (rw q at n)
        (add_named-keeps e.1.peer_addrs x p _ (insert_other e.0 x e.1 m q ∙ h))
]

known_name : (a x : String) → str_eq a x ≡ true → a ≡ x
known_name a x h = ground (arith, eq_iff a x)

some_eq : (a b : PeerInfo) → some a ≡ some b → a ≡ b
some_eq a b h = cc

resolve_from-takes :
    (peers : List (String × PeerInfo)) (x : String) (p : PeerInfo) (m : List (String × PeerInfo))
    → IsDistinct peers
    → lookup x peers ≡ some p
    → lookup x (resolve_from peers m) ≡ some p
unfolding resolve_from
resolve_from-takes [] x p m d h = cc
resolve_from-takes (e ∷ peers) x p m d h = elim (Bool-cases (str_eq e.0 x)) [
  | inl q ↦
      let same = known_name e.0 x q in
      resolve_from-keeps peers x p _ (ap (λ k. lookup k peers) (sym same) ∙ d.0) (
        add_named-keeps e.1.peer_addrs x p _
          (ap (λ k. lookup k (insert e.0 e.1 m)) (sym same) ∙ insert_same e.0 e.1 m ∙ (rw q at h)))
  | inr q ↦ resolve_from-takes peers x p _ d.1 (rw q at h)
]

-- A name is known to a map.
abbrev pub IsKnown : String → List (String × PeerInfo) → Type 0
IsKnown x m = is_some (lookup x m) ≡ true

insert-IsKnown :
    (k x : String) (p : PeerInfo) (m : List (String × PeerInfo))
    → IsKnown x m
    → IsKnown x (insert k p m)
insert-IsKnown k x p m h = rw (lookup-insert k x p m) (by_key (str_eq k x))
  where
    by_key : (b : Bool) → is_some (if b then some p else lookup x m) ≡ true
    by_key true = refl
    by_key false = h

name-IsKnown :
    (a x : String) (m : List (String × PeerInfo))
    → IsKnown x m
    → IsKnown x (if is_some (lookup a m) then m else insert a (named a) m)
name-IsKnown a x m h = elim (Bool-cases (is_some (lookup a m))) [
  | inl e ↦ rw e h
  | inr e ↦ rw e (insert-IsKnown a x (named a) m h)
]

self-IsKnown :
    (a : String) (m : List (String × PeerInfo))
    → IsKnown a (if is_some (lookup a m) then m else insert a (named a) m)
self-IsKnown a m = elim (Bool-cases (is_some (lookup a m))) [
  | inl e ↦ rw e e
  | inr e ↦ rw e (ap is_some (insert_same a (named a) m))
]

names-IsKnown :
    (names : List String) (x : String) (m : List (String × PeerInfo))
    → IsKnown x m
    → IsKnown x (add_named names m)
unfolding add_named
names-IsKnown [] x m h = h
names-IsKnown (a ∷ names) x m h = names-IsKnown names x _ (name-IsKnown a x m h)

peers-IsKnown :
    (peers : List (String × PeerInfo)) (x : String) (m : List (String × PeerInfo))
    → IsKnown x m
    → IsKnown x (resolve_from peers m)
unfolding resolve_from
peers-IsKnown [] x m h = h
peers-IsKnown (e ∷ peers) x m h =
    peers-IsKnown peers x _ (names-IsKnown e.1.peer_addrs x _ (insert-IsKnown e.0 x e.1 m h))

added-IsKnown :
    (names : List String) (m : List (String × PeerInfo))
    (later : List (String × PeerInfo) → List (String × PeerInfo))
    → ((x : String) (m : List (String × PeerInfo)) → IsKnown x m → IsKnown x (later m))
    → All (λ a. IsKnown a (later (add_named names m))) names
unfolding add_named
added-IsKnown [] m later f = tt
added-IsKnown (a ∷ names) m later f =
    (f a _ (names-IsKnown names a _ (self-IsKnown a m)), added-IsKnown names _ later f)

resolve_from-IsKnown :
    (peers : List (String × PeerInfo)) (m : List (String × PeerInfo))
    → All (λ e. All (λ a. IsKnown a (resolve_from peers m)) e.1.peer_addrs) peers
unfolding resolve_from
resolve_from-IsKnown [] m = tt
resolve_from-IsKnown (e ∷ peers) m = (
  added-IsKnown e.1.peer_addrs (insert e.0 e.1 m) (resolve_from peers) (peers-IsKnown peers),
  resolve_from-IsKnown peers (add_named e.1.peer_addrs (insert e.0 e.1 m)),
)

-- `resolvePeerMap`, on a map, keeps what every peer that has answered has said, also where another has
-- named it first, and knows every address that one of them has named.
pub resolve_peer_map_complete :
    (peers : List (String × PeerInfo))
    → IsDistinct peers
    → ((x : String) (p : PeerInfo)
        → lookup x peers ≡ some p
        → lookup x (resolve_peer_map peers) ≡ some p)
      × All (λ e. All (λ a. IsKnown a (resolve_peer_map peers)) e.1.peer_addrs) peers
unfolding resolve_peer_map
resolve_peer_map_complete peers d =
    ((λ x p h. resolve_from-takes peers x p [] d h), resolve_from-IsKnown peers [])
