-- ===== src/Peers/Endpoints.antt =====
-- The endpoints that a crawl returns (`waitForNetworkPeers` of pkg/loadtest/tm_network_info.go).
use perpx_load_test.Base.{
  ℕ, zero, suc, ◌≡◌, refl, subst, Bool, true, false, String, Option, some, List, [], ◌∷◌, is_some,
  get_elem?, lookup, All, All-append, Result, ok, err, bind_ok, ok_eq,
}
use perpx_load_test.Base.Int.{ℤ}
use perpx_load_test.Peers.{
  CrawlError, PeerInfo, is_selected, keep, stop_at, filter_from, filter_peer_map, more_peers,
  unqueried, is_enough, Round, out_of_time, asked, take_if, crawl,
}
use perpx_load_test.Peers.Network.{
  supplied_addr, supply, Delivery, network_rounds, crawl_from, wait_for_network_peers,
}
use perpx_load_test.Peers.Origin.{
  Known, Entry, RoundKnown, All-insert, more_peers-Known, network_rounds-Known,
}

module _ (hostname : String → Result CrawlError String)
    (lookup_ip : String → Result CrawlError (List (Option String)))
    (net_info : ℕ → String → Result CrawlError (List String)) (urls : List String)
    (ws_addr : String → Result CrawlError String) where
  -- The web socket of a known address.
  abbrev pub IsFound : String → Type 0
  IsFound x = (a : String) × Known hostname lookup_ip net_info urls a × (ws_addr a ≡ ok x)

  keep-IsFound :
      (b : Bool) (x : String) (result : List String)
      → IsFound x
      → All IsFound result
      → All IsFound (keep ws_addr b x result)
  unfolding keep
  keep-IsFound true x result f v = All-append IsFound result (x ∷ []) v (f, tt)
  keep-IsFound false x result f v = v

  stop_at-IsFound :
      (b : Bool) (kept out : List String) (rest : Result CrawlError (List String))
      → All IsFound kept
      → (rest ≡ ok out → All IsFound out)
      → stop_at ws_addr b kept rest ≡ ok out
      → All IsFound out
  unfolding stop_at
  stop_at-IsFound true kept out rest v f h = subst (All IsFound) (ok_eq h) v
  stop_at-IsFound false kept out rest v f h = f h

  filter_from-IsFound :
      (supplied peers : List (String × PeerInfo)) (method : String) (most : ℤ)
      (result out : List String)
      → All (Entry hostname lookup_ip net_info urls) peers
      → All IsFound result
      → filter_from ws_addr supplied method most peers result ≡ ok out
      → All IsFound out
  unfolding filter_from
  filter_from-IsFound supplied [] method most result out ps v h = subst (All IsFound) (ok_eq h) v
  filter_from-IsFound supplied (e ∷ peers) method most result out ((k, p, ns), ps) v h =
      let (x, (q, r)) = bind_ok (ws_addr e.0) _ out h in
      let kept = keep ws_addr (is_selected method (is_some (lookup e.0 supplied))) x result in
      let good : All IsFound kept = keep-IsFound _ x result (e.0, k, q) v in
      stop_at-IsFound _ kept out _ good
        (filter_from-IsFound supplied peers method most kept out ps good) r

  -- What a crawl gives, if anything.
  abbrev pub AllFound : Option (Result CrawlError (List String)) → Type 0
  AllFound (some (ok endpoints)) = All IsFound endpoints
  AllFound _ = Unit

  filtered-AllFound :
      (supplied peers : List (String × PeerInfo)) (method : String) (most : ℤ)
      (r : Result CrawlError (List String))
      → filter_peer_map ws_addr supplied peers method most ≡ r
      → All (Entry hostname lookup_ip net_info urls) peers
      → AllFound (some r)
  unfolding filter_peer_map
  filtered-AllFound supplied peers method most (err e) h v = tt
  filtered-AllFound supplied peers method most (ok out) h v =
      filter_from-IsFound supplied peers method most [] out v tt h

  take_if-AllFound :
      (b : Bool) (r : Result CrawlError (List String))
      (rest : Option (Result CrawlError (List String)))
      → AllFound (some r)
      → AllFound rest
      → AllFound (take_if b r rest)
  unfolding take_if
  take_if-AllFound true r rest v w = v
  take_if-AllFound false r rest v w = w

  crawl-AllFound :
      (supplied : List (String × PeerInfo)) (method : String) (most least connectivity : ℤ)
      (peers : List (String × PeerInfo)) (rounds : List Round)
      → All (Entry hostname lookup_ip net_info urls) peers
      → All (RoundKnown hostname lookup_ip net_info urls) rounds
      → AllFound (crawl ws_addr supplied method most least connectivity peers rounds)
  unfolding crawl
  crawl-AllFound supplied method most least connectivity peers [] v w = tt
  crawl-AllFound supplied method most least connectivity peers (out_of_time ∷ rounds) v w = tt
  crawl-AllFound supplied method most least connectivity peers (asked (err e) ∷ rounds) v w = tt
  crawl-AllFound supplied method most least connectivity peers (asked (ok new) ∷ rounds) v (n, w) =
      let kept = more_peers (unqueried peers) new in
      let known = more_peers-Known hostname lookup_ip net_info urls peers new v n in
      take_if-AllFound (is_enough least connectivity kept)
        (filter_peer_map ws_addr supplied kept method most) _
        (filtered-AllFound supplied kept method most _ refl known)
        (crawl-AllFound supplied method most least connectivity kept rounds known w)

  supply-Known :
      (rest : List String) (peers out : List (String × PeerInfo))
      → ((k : ℕ) (url a : String)
          → get_elem? rest k ≡ some url
          → supplied_addr hostname lookup_ip url ≡ ok a
          → Known hostname lookup_ip net_info urls a)
      → All (Entry hostname lookup_ip net_info urls) peers
      → supply hostname lookup_ip rest peers ≡ ok out
      → All (Entry hostname lookup_ip net_info urls) out
  unfolding supply
  supply-Known [] peers out f v h = subst (All (Entry hostname lookup_ip net_info urls)) (ok_eq h) v
  supply-Known (url ∷ rest) peers out f v h =
      let (a, (q, r)) = bind_ok (supplied_addr hostname lookup_ip url) _ out h in
      let known = f zero url a refl q in
      supply-Known rest _ out (λ k. f (suc k))
        (All-insert (Entry hostname lookup_ip net_info urls) a _ peers (known, known, tt) v) r

  crawl_from-AllFound :
      (method : String) (most least connectivity : ℤ) (rounds : List (Option (List Delivery)))
      (r : Result CrawlError (List (String × PeerInfo)))
      → supply hostname lookup_ip urls [] ≡ r
      → AllFound (crawl_from net_info ws_addr method most least connectivity rounds r)
  unfolding crawl_from
  crawl_from-AllFound method most least connectivity rounds (err e) h = tt
  crawl_from-AllFound method most least connectivity rounds (ok peers) h =
      let known = supply-Known urls [] peers (λ k url a. Known.supplied k url a) tt h in
      crawl-AllFound peers method most least connectivity peers
        (network_rounds net_info 0 rounds peers) known
        (network_rounds-Known hostname lookup_ip net_info urls rounds 0 peers known)

  -- Whatever the peers answer, in whatever order and however late: an endpoint that a crawl returns is
  -- the web socket of an address that was supplied, or that a peer has named which was itself supplied
  -- or named.
  pub wait_for_network_peers-AllFound :
      (method : String) (most least connectivity : ℤ) (rounds : List (Option (List Delivery)))
      → AllFound (
          wait_for_network_peers net_info hostname lookup_ip ws_addr urls method most least
            connectivity rounds)
  unfolding wait_for_network_peers
  wait_for_network_peers-AllFound method most least connectivity rounds =
      crawl_from-AllFound method most least connectivity rounds (supply hostname lookup_ip urls [])
        refl
