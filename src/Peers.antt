-- ===== src/Peers.antt =====
-- pkg/loadtest/tm_network_info.go: the crawl for the peers of a network. The answers to the queries,
-- the clock and the name service are the environment; a map is a list with distinct keys, in the order
-- in which a `range` visits it. The client of a peer is left out: it is made from its address.
pub mod Crawl
pub mod Selection
pub mod Connectivity
pub mod Network
pub mod Origin
pub mod Endpoints
pub mod Stale
pub mod Examples
use perpx_load_test.Base.{
  ℕ, zero, suc, Bool, true, false, not, ◌&&◌, String, str_eq, Option, none, some, List, [], ◌∷◌,
  ◌++◌, if◌then◌else◌, is_some, length, lookup, insert, leb, ltb, Result, ok, err, ◌>>=◌,
}
use perpx_load_test.Base.Int.{ℤ, pos, leb_ℤ, ltb_ℤ}

pub data CrawlError : Type 0 where
  bad_url : ℕ → CrawlError
  unresolved : String → CrawlError
  crawl_timeout : CrawlError
  query_timeout : CrawlError
  cancel_signal : CrawlError

pub record PeerInfo : Type 0 where
  pub addr : String
  pub peer_addrs : List String
  pub queried : Bool

-- A peer that only others have named.
abbrev pub named : String → PeerInfo
named a = record { addr = a; peer_addrs = []; queried = false }

unfoldable pub add_named : List String → List (String × PeerInfo) → List (String × PeerInfo)
add_named [] result = result
add_named (a ∷ names) result =
    add_named names (if is_some (lookup a result) then result else insert a (named a) result)

unfoldable pub resolve_from :
    List (String × PeerInfo) → List (String × PeerInfo) → List (String × PeerInfo)
unfolding add_named
resolve_from [] result = result
resolve_from (e ∷ peers) result =
    resolve_from peers (add_named e.1.peer_addrs (insert e.0 e.1 result))

-- `resolvePeerMap`.
unfoldable pub resolve_peer_map : List (String × PeerInfo) → List (String × PeerInfo)
unfolding resolve_from
resolve_peer_map peers = resolve_from peers []

-- Whether a peer is taken under a selection method.
unfoldable pub is_selected : String → Bool → Bool
is_selected method supplied =
    if str_eq method "supplied"
    then supplied
    else if str_eq method "discovered"
    then not supplied
    else true

-- `ws_addr` is `url.Parse` with the `Sprintf` that follows it.
module _ (ws_addr : String → Result CrawlError String) where
  unfoldable pub keep : Bool → String → List String → List String
  keep true a result = result ++ (a ∷ [])
  keep false a result = result

  -- The test of `maxCount`, which ends the loop.
  unfoldable pub stop_at :
      Bool → List String → Result CrawlError (List String) → Result CrawlError (List String)
  stop_at true result rest = ok result
  stop_at false result rest = rest

  unfoldable pub filter_from :
      List (String × PeerInfo)
      → String
      → ℤ
      → List (String × PeerInfo)
      → List String
      → Result CrawlError (List String)
  unfolding keep stop_at is_selected
  filter_from supplied method max_count [] result = ok result
  filter_from supplied method max_count (e ∷ peers) result = ws_addr e.0 >>= λ a.
      let kept = keep (is_selected method (is_some (lookup e.0 supplied))) a result in
      stop_at (ltb_ℤ (pos 0) max_count && leb_ℤ max_count (pos (length kept))) kept
        (filter_from supplied method max_count peers kept)

  -- `filterPeerMap`.
  unfoldable pub filter_peer_map :
      List (String × PeerInfo)
      → List (String × PeerInfo)
      → String
      → ℤ
      → Result CrawlError (List String)
  unfolding filter_from
  filter_peer_map supplied peers method max_count = filter_from supplied method max_count peers []

unfoldable pub lower_by : PeerInfo → ℕ → ℕ
lower_by p m = let n = length p.peer_addrs in if p.queried && ltb 0 n && ltb n m then n else m

unfoldable pub min_from : List (String × PeerInfo) → ℕ → ℕ
unfolding lower_by
min_from [] m = m
min_from (e ∷ peers) m = min_from peers (lower_by e.1 m)

-- `getMinPeerConnectivity`.
unfoldable pub min_peer_connectivity : List (String × PeerInfo) → ℕ
unfolding min_from
min_peer_connectivity peers = min_from peers (length peers)

-- What the loop of `getNetworkPeers` receives.
pub data Answer : Type 0 where
  answered : PeerInfo → Answer
  query_failed : Answer
  cancelled : Answer
  late : Answer

-- The loop of `getNetworkPeers`, with the number of answers that are still expected after the next
-- one; none where the answers run out. It waits for one answer even where no peer is asked.
unfoldable pub collect :
    ℕ
    → List (String × PeerInfo)
    → List Answer
    → Option (Result CrawlError (List (String × PeerInfo)))
unfolding resolve_peer_map
collect left result [] = none
collect left result (cancelled ∷ answers) = some (err cancel_signal)
collect left result (late ∷ answers) = some (err query_timeout)
collect zero result (query_failed ∷ answers) = some (ok (resolve_peer_map result))
collect (suc left) result (query_failed ∷ answers) = collect left result answers
collect zero result (answered p ∷ answers) = some (ok (resolve_peer_map (insert p.addr p result)))
collect (suc left) result (answered p ∷ answers) = collect left (insert p.addr p result) answers

-- What `getNetworkPeers` does to the peers that it is given: none has been queried.
unfoldable pub unqueried : List (String × PeerInfo) → List (String × PeerInfo)
unqueried [] = []
unqueried (e ∷ peers) = (e.0, record e.1 { queried = false }) ∷ unqueried peers

-- A round of `waitForNetworkPeers`: the peers of `getNetworkPeers` are kept where there are more.
unfoldable pub more_peers :
    List (String × PeerInfo) → List (String × PeerInfo) → List (String × PeerInfo)
more_peers peers new_peers = if ltb (length peers) (length new_peers) then new_peers else peers

-- Whether the crawl is done.
unfoldable pub is_enough : ℤ → ℤ → List (String × PeerInfo) → Bool
unfolding min_peer_connectivity
is_enough min_peers min_connectivity peers =
    leb_ℤ min_peers (pos (length peers))
    && leb_ℤ min_connectivity (pos (min_peer_connectivity peers))

-- A round of the loop of `waitForNetworkPeers`: the time is up, or the peers have been asked.
pub data Round : Type 0 where
  out_of_time : Round
  asked : Result CrawlError (List (String × PeerInfo)) → Round

unfoldable pub take_if :
    Bool
    → Result CrawlError (List String)
    → Option (Result CrawlError (List String))
    → Option (Result CrawlError (List String))
take_if true found rest = some found
take_if false found rest = rest

module _ (ws_addr : String → Result CrawlError String) (supplied : List (String × PeerInfo))
    (method : String) (max_count min_peers min_connectivity : ℤ) where
  -- The loop of `waitForNetworkPeers`; none where the rounds run out.
  unfoldable pub crawl :
      List (String × PeerInfo) → List Round → Option (Result CrawlError (List String))
  unfolding take_if is_enough more_peers filter_peer_map unqueried
  crawl peers [] = none
  crawl peers (out_of_time ∷ rounds) = some (err crawl_timeout)
  crawl peers (asked (err e) ∷ rounds) = some (err e)
  crawl peers (asked (ok new_peers) ∷ rounds) =
      let kept = more_peers (unqueried peers) new_peers in
      take_if (is_enough min_peers min_connectivity kept)
        (filter_peer_map ws_addr supplied kept method max_count) (crawl kept rounds)
