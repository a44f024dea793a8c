-- ===== src/Peers/Examples.antt =====
-- A crawl at concrete inputs.
use perpx_load_test.Base.{
  arith, ℕ, ◌&&◌, length, Option, none, ◌≡◌, refl, true, String, some, List, [], ◌∷◌, Result, ok,
}
use perpx_load_test.Base.Int.{pos, leb_ℤ}
use perpx_load_test.Peers.{
  min_peer_connectivity, PeerInfo, CrawlError, crawl, asked, take_if, filter_peer_map, unqueried,
}
use perpx_load_test.Peers.Network.{Delivery, from_peer, wait_for_network_peers}
use perpx_load_test.Peers.Endpoints.{AllFound, wait_for_network_peers-AllFound}
use perpx_load_test.Peers.Stale.{stale_round-crawl}

abbrev two_peers : List (String × PeerInfo)
two_peers =
    (
      "http://10.0.0.1:26657",
      record {
        addr = "http://10.0.0.1:26657";
        peer_addrs = "http://10.0.0.2:26657" ∷ "http://10.0.0.3:26657" ∷ [];
        queried = true;
      },
    )
    ∷ (
      "http://10.0.0.2:26657",
      record {
        addr = "http://10.0.0.2:26657";
        peer_addrs = "http://10.0.0.1:26657" ∷ [];
        queried = true;
      },
    )
    ∷ []

-- Every address stands for itself.
abbrev plain : String → Result CrawlError String
plain a = ok a

abbrev same : String → String
same a = a

-- The second peer has named one other.
one_other : min_peer_connectivity two_peers ≡ 1
unfolding min_peer_connectivity
one_other = refl

-- One endpoint is supplied; its peer names another one, which answers in the next round.
abbrev local_host : String → Result CrawlError String
local_host url = ok "a"

abbrev one_record : String → Result CrawlError (List (Option String))
one_record host = ok (none ∷ some "10.0.0.1" ∷ [])

abbrev names_second : ℕ → String → Result CrawlError (List String)
names_second n a = ok ("10.0.0.2" ∷ [])

abbrev two_rounds : List (Option (List Delivery))
two_rounds = some (from_peer 0 ∷ []) ∷ some (from_peer 1 ∷ from_peer 0 ∷ []) ∷ []

-- Both addresses are found, in the first round.
crawl_found :
    wait_for_network_peers names_second local_host one_record plain
      ("ws://a" ∷ [])
      "any"
      (pos 0)
      (pos 2)
      (pos 1)
      two_rounds
    ≡ some (ok ("http://10.0.0.1:26657" ∷ "http://10.0.0.2:26657" ∷ []))
unfolding wait_for_network_peers
crawl_found = refl

wait_for_network_peers-AllFound_example :
    AllFound local_host one_record names_second ("ws://a" ∷ []) plain (
      wait_for_network_peers names_second local_host one_record plain
        ("ws://a" ∷ [])
        "any"
        (pos 0)
        (pos 2)
        (pos 1)
        two_rounds)
wait_for_network_peers-AllFound_example =
    wait_for_network_peers-AllFound local_host one_record names_second ("ws://a" ∷ []) plain "any"
      (pos 0) (pos 2) (pos 1) two_rounds

-- Each of two peers has named one other, and the crawl asks for three.
stale_round-crawl_example :
    crawl plain two_peers "any" (pos 0) (pos 2) (pos 2) two_peers (asked (ok two_peers) ∷ [])
    ≡ take_if
        (leb_ℤ (pos 2) (pos (length two_peers)) && leb_ℤ (pos 2) (pos (length two_peers)))
        (filter_peer_map plain two_peers (unqueried two_peers) "any" (pos 0))
        (crawl plain two_peers "any" (pos 0) (pos 2) (pos 2) (unqueried two_peers) [])
stale_round-crawl_example =
    stale_round-crawl plain two_peers "any" (pos 0) (pos 2) (pos 2) two_peers two_peers []
      (omega arith)
