-- ===== src/Peers/Stale.antt =====
-- A round of the crawl that finds no more peers (`waitForNetworkPeers` and `getNetworkPeers` of
-- pkg/loadtest/tm_network_info.go).
use perpx_load_test.Base.{
  ℕ, suc, ◌≤◌, ◌≡◌, refl, ap, ◌∙◌, false, ◌&&◌, String, List, [], ◌∷◌, arith, if◌then◌else◌, length,
  ltb, Result, ok,
}
use perpx_load_test.Base.Int.{ℤ, pos, leb_ℤ}
use perpx_load_test.Peers.{
  CrawlError, PeerInfo, min_from, lower_by, min_peer_connectivity, more_peers, unqueried, is_enough,
  take_if, Round, asked, crawl, filter_peer_map,
}

unqueried-length : (peers : List (String × PeerInfo)) → length (unqueried peers) ≡ length peers
unfolding unqueried
unqueried-length [] = refl
unqueried-length (e ∷ peers) = ap suc (unqueried-length peers)

min_from-unqueried : (peers : List (String × PeerInfo)) (m : ℕ) → min_from (unqueried peers) m ≡ m
unfolding unqueried min_from lower_by
min_from-unqueried [] m = refl
min_from-unqueried (e ∷ peers) m = min_from-unqueried peers m

is_enough-unqueried :
    (least connectivity : ℤ) (peers : List (String × PeerInfo))
    → is_enough least connectivity (unqueried peers)
      ≡ (leb_ℤ least (pos (length peers)) && leb_ℤ connectivity (pos (length peers)))
unfolding is_enough min_peer_connectivity
is_enough-unqueried least connectivity peers =
    ap (λ n. leb_ℤ least (pos n) && leb_ℤ connectivity (pos (min_from (unqueried peers) n)))
      (unqueried-length peers)
    ∙ ap (λ n. leb_ℤ least (pos (length peers)) && leb_ℤ connectivity (pos n))
        (min_from-unqueried peers (length peers))

more_peers-stale :
    (peers new : List (String × PeerInfo))
    → length new ≤ length peers
    → more_peers peers new ≡ peers
unfolding more_peers
more_peers-stale peers new h =
    let no : ltb (length peers) (length new) ≡ false = ground arith in
    ap (λ b. if b then new else peers) no

-- Where a round finds no more peers than are known, the crawl does not look at who is connected to
-- whom: it ends exactly where the number of peers reaches both the least number of peers and the least
-- connectivity.
pub stale_round-crawl :
    (ws_addr : String → Result CrawlError String) (supplied : List (String × PeerInfo))
    (method : String) (most least connectivity : ℤ) (peers new : List (String × PeerInfo))
    (rounds : List Round)
    → length new ≤ length peers
    → crawl ws_addr supplied method most least connectivity peers (asked (ok new) ∷ rounds)
      ≡ take_if
          (leb_ℤ least (pos (length peers)) && leb_ℤ connectivity (pos (length peers)))
          (filter_peer_map ws_addr supplied (unqueried peers) method most)
          (crawl ws_addr supplied method most least connectivity (unqueried peers) rounds)
unfolding crawl
stale_round-crawl ws_addr supplied method most least connectivity peers new rounds h =
    let kept : more_peers (unqueried peers) new ≡ unqueried peers =
      more_peers-stale (unqueried peers) new (omega (arith, h, unqueried-length peers)) in
    ap
      (λ m.
        take_if (is_enough least connectivity m) (filter_peer_map ws_addr supplied m method most)
          (crawl ws_addr supplied method most least connectivity m rounds))
      kept
    ∙ ap
        (λ b.
          take_if b (filter_peer_map ws_addr supplied (unqueried peers) method most)
            (crawl ws_addr supplied method most least connectivity (unqueried peers) rounds))
        (is_enough-unqueried least connectivity peers)
