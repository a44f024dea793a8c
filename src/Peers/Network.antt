-- ===== src/Peers/Network.antt =====
-- The queries of the crawl (`waitForNetworkPeers` and `getNetworkPeers` of
-- pkg/loadtest/tm_network_info.go). The URL parser and the name service are parameters, and so are the
-- answers of `netInfo`, by the round and the address: the remote IPs, or an error. Which goroutine's
-- answer comes next, and where the wait is cancelled or too long, is a list of deliveries.
use Prim.Native.String.{◌++◌ as ◌+++◌}
use perpx_load_test.Base.{
  ℕ, suc, ◌-◌, true, false, String, Option, none, some, List, [], ◌∷◌, map, get_elem?, length,
  insert, Result, ok, err, ◌>>=◌,
}
use perpx_load_test.Base.Int.{ℤ}
use perpx_load_test.Peers.{
  CrawlError, unresolved, PeerInfo, Answer, answered, query_failed, cancelled, late, collect,
  more_peers, unqueried, Round, out_of_time, asked, crawl,
}

-- `Sprintf("http://%s:26657", ip)`.
abbrev pub peer_url : String → String
peer_url ip = "http://" +++ (ip +++ ":26657")

-- The loop of `lookupFirstIPv4Addr` over the records, of which some are IPv4.
unfoldable pub first_ipv4 : String → List (Option String) → Result CrawlError String
first_ipv4 host [] = err (unresolved host)
first_ipv4 host (none ∷ records) = first_ipv4 host records
first_ipv4 host (some ip ∷ records) = ok ip

-- `getPeerAddrs`.
unfoldable pub get_peer_addrs : List (String × PeerInfo) → List String
get_peer_addrs [] = []
get_peer_addrs (e ∷ peers) = e.1.addr ∷ get_peer_addrs peers

module _ (hostname : String → Result CrawlError String)
    (lookup_ip : String → Result CrawlError (List (Option String))) where
  -- `lookupFirstIPv4Addr`.
  unfoldable pub lookup_first_ipv4 : String → Result CrawlError String
  unfolding first_ipv4
  lookup_first_ipv4 host = lookup_ip host >>= λ records. first_ipv4 host records

  -- The address of an endpoint that was supplied.
  unfoldable pub supplied_addr : String → Result CrawlError String
  unfolding lookup_first_ipv4
  supplied_addr url = hostname url >>= λ host. lookup_first_ipv4 host >>= λ ip. ok (peer_url ip)

  unfoldable pub supply :
      List String → List (String × PeerInfo) → Result CrawlError (List (String × PeerInfo))
  unfolding supplied_addr
  supply [] peers = ok peers
  supply (url ∷ urls) peers = supplied_addr url >>= λ a.
      supply urls (insert a (record { addr = a; peer_addrs = []; queried = false }) peers)

-- What the loop of `getNetworkPeers` receives next.
pub data Delivery : Type 0 where
  from_peer : ℕ → Delivery
  cancel : Delivery
  too_late : Delivery

module _ (net_info : ℕ → String → Result CrawlError (List String)) where
  -- The goroutine of a peer.
  unfoldable pub replied : String → Result CrawlError (List String) → Answer
  replied a (err e) = query_failed
  replied a (ok ips) = answered (record { addr = a; peer_addrs = map peer_url ips; queried = true })

  unfoldable pub reply_of : ℕ → Option (String × PeerInfo) → List Answer → List Answer
  unfolding replied
  reply_of n none later = later
  reply_of n (some e) later = replied e.1.addr (net_info n e.1.addr) ∷ later

  unfoldable pub replies : ℕ → List (String × PeerInfo) → List Delivery → List Answer
  unfolding reply_of
  replies n peers [] = []
  replies n peers (from_peer k ∷ ds) = reply_of n (get_elem? peers k) (replies n peers ds)
  replies n peers (cancel ∷ ds) = cancelled ∷ replies n peers ds
  replies n peers (too_late ∷ ds) = late ∷ replies n peers ds

  -- `getNetworkPeers` in the round `n`.
  unfoldable pub get_network_peers :
      ℕ
      → List (String × PeerInfo)
      → List Delivery
      → Option (Result CrawlError (List (String × PeerInfo)))
  unfolding replies collect
  get_network_peers n peers ds = collect (length peers - 1) [] (replies n peers ds)

  -- The rounds of `waitForNetworkPeers`, from the peers that each leaves; the time is up in a round
  -- without deliveries.
  unfoldable pub later_rounds :
      (List (String × PeerInfo) → List Round)
      → List (String × PeerInfo)
      → Option (Result CrawlError (List (String × PeerInfo)))
      → List Round
  unfolding more_peers unqueried
  later_rounds rest peers none = []
  later_rounds rest peers (some (err e)) = asked (err e) ∷ []
  later_rounds rest peers (some (ok found)) =
      asked (ok found) ∷ rest (more_peers (unqueried peers) found)

  unfoldable pub network_rounds :
      ℕ → List (Option (List Delivery)) → List (String × PeerInfo) → List Round
  unfolding later_rounds get_network_peers
  network_rounds n [] peers = []
  network_rounds n (none ∷ rounds) peers = out_of_time ∷ []
  network_rounds n (some ds ∷ rounds) peers =
      later_rounds (network_rounds (suc n) rounds) peers (get_network_peers n peers ds)

  unfoldable pub crawl_from :
      (String → Result CrawlError String)
      → String
      → ℤ
      → ℤ
      → ℤ
      → List (Option (List Delivery))
      → Result CrawlError (List (String × PeerInfo))
      → Option (Result CrawlError (List String))
  unfolding network_rounds crawl
  crawl_from ws_addr method most least connectivity rounds (err e) = some (err e)
  crawl_from ws_addr method most least connectivity rounds (ok peers) =
      crawl ws_addr peers method most least connectivity peers (network_rounds 0 rounds peers)

  -- `waitForNetworkPeers`; none where the deliveries run out.
  unfoldable pub wait_for_network_peers :
      (String → Result CrawlError String)
      → (String → Result CrawlError (List (Option String)))
      → (String → Result CrawlError String)
      → List String
      → String
      → ℤ
      → ℤ
      → ℤ
      → List (Option (List Delivery))
      → Option (Result CrawlError (List String))
  unfolding supply crawl_from
  wait_for_network_peers hostname lookup_ip ws_addr urls method most least connectivity rounds =
      crawl_from ws_addr method most least connectivity rounds (supply hostname lookup_ip urls [])
