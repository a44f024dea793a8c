-- ===== src/Peers/Origin.antt =====
-- Where the endpoints of a crawl come from (`waitForNetworkPeers` of
-- pkg/loadtest/tm_network_info.go).
use perpx_load_test.Base.{
  ℕ, zero, suc, ◌-◌, ◌≡◌, refl, Bool, true, false, String, str_eq, Option, none, some, List, [],
  ◌∷◌, map, if◌then◌else◌, is_some, get_elem?, length, lookup, insert, ltb, All, Result, ok, err,
}
use perpx_load_test.Peers.{
  CrawlError, PeerInfo, named, add_named, resolve_from, resolve_peer_map, Answer, answered,
  query_failed, cancelled, late, collect, more_peers, unqueried, Round, asked,
}
use perpx_load_test.Peers.Network.{
  peer_url, supplied_addr, Delivery, from_peer, cancel, too_late, replied, reply_of, replies,
  get_network_peers, later_rounds, network_rounds,
}

pub All-if {ℓ κ} :
    {A : Type ℓ} (P : A → Type κ) (b : Bool) (xs ys : List A)
    → All P xs
    → All P ys
    → All P (if b then xs else ys)
All-if P true xs ys v w = v
All-if P false xs ys v w = w

pub All-insert :
    (P : String × PeerInfo → Type 0) (k : String) (v : PeerInfo) (m : List (String × PeerInfo))
    → P (k, v)
    → All P m
    → All P (insert k v m)
All-insert P k v [] p ps = (p, tt)
All-insert P k v (e ∷ m) p (q, ps) =
    All-if P (str_eq e.0 k) ((k, v) ∷ m) (e ∷ insert k v m) (p, ps) (q, All-insert P k v m p ps)

module _ (hostname : String → Result CrawlError String)
    (lookup_ip : String → Result CrawlError (List (Option String)))
    (net_info : ℕ → String → Result CrawlError (List String)) (urls : List String) where
  -- An address that was supplied, or that a known peer has named when it was asked.
  pub data Known : String → Type 0 where
    supplied :
        (k : ℕ) (url a : String)
        → get_elem? urls k ≡ some url
        → supplied_addr hostname lookup_ip url ≡ ok a
        → Known a
    told :
        (n k : ℕ) (a ip : String) (ips : List String)
        → Known a
        → net_info n a ≡ ok ips
        → get_elem? ips k ≡ some ip
        → Known (peer_url ip)

  abbrev pub Entry : String × PeerInfo → Type 0
  Entry e = Known e.0 × Known e.1.addr × All Known e.1.peer_addrs

  add_named-Known :
      (names : List String) (m : List (String × PeerInfo))
      → All Known names
      → All Entry m
      → All Entry (add_named names m)
  unfolding add_named
  add_named-Known [] m ns v = v
  add_named-Known (a ∷ names) m (n, ns) v = add_named-Known names _ ns (
      All-if Entry (is_some (lookup a m)) m (insert a (named a) m) v
        (All-insert Entry a (named a) m (n, n, tt) v))

  resolve_from-Known :
      (peers m : List (String × PeerInfo))
      → All Entry peers
      → All Entry m
      → All Entry (resolve_from peers m)
  unfolding resolve_from
  resolve_from-Known [] m ps v = v
  resolve_from-Known (e ∷ peers) m ((k, a, ns), ps) v =
      resolve_from-Known peers _ ps
        (add_named-Known e.1.peer_addrs _ ns (All-insert Entry e.0 e.1 m (k, a, ns) v))

  abbrev AnswerKnown : Answer → Type 0
  AnswerKnown (answered p) = Known p.addr × All Known p.peer_addrs
  AnswerKnown _ = Unit

  -- What a query or a round has given, if anything.
  abbrev Gives : Option (Result CrawlError (List (String × PeerInfo))) → Type 0
  Gives (some (ok m)) = All Entry m
  Gives _ = Unit

  collect-Known :
      (left : ℕ) (result : List (String × PeerInfo)) (answers : List Answer)
      → All AnswerKnown answers
      → All Entry result
      → Gives (collect left result answers)
  unfolding collect resolve_peer_map
  collect-Known left result [] qs v = tt
  collect-Known left result (cancelled ∷ answers) qs v = tt
  collect-Known left result (late ∷ answers) qs v = tt
  collect-Known zero result (query_failed ∷ answers) qs v = resolve_from-Known result [] v tt
  collect-Known (suc left) result (query_failed ∷ answers) (_, qs) v =
      collect-Known left result answers qs v
  collect-Known zero result (answered p ∷ answers) ((a, ns), qs) v =
      resolve_from-Known _ [] (All-insert Entry p.addr p result (a, a, ns) v) tt
  collect-Known (suc left) result (answered p ∷ answers) ((a, ns), qs) v =
      collect-Known left _ answers qs (All-insert Entry p.addr p result (a, a, ns) v)

  urls-Known :
      (ips : List String)
      → ((k : ℕ) (ip : String) → get_elem? ips k ≡ some ip → Known (peer_url ip))
      → All Known (map peer_url ips)
  urls-Known [] h = tt
  urls-Known (ip ∷ ips) h = (h zero ip refl, urls-Known ips (λ k. h (suc k)))

  replied-Known :
      (n : ℕ) (a : String) (r : Result CrawlError (List String))
      → net_info n a ≡ r
      → Known a
      → AnswerKnown (replied net_info a r)
  unfolding replied
  replied-Known n a (err e) h v = tt
  replied-Known n a (ok ips) h v = (v, urls-Known ips (λ k ip. told n k a ip ips v h))

  reply_of-Known :
      (n : ℕ) (peers : List (String × PeerInfo)) (k : ℕ) (later : List Answer)
      → All Entry peers
      → All AnswerKnown later
      → All AnswerKnown (reply_of net_info n (get_elem? peers k) later)
  unfolding reply_of
  reply_of-Known n [] k later v w = w
  reply_of-Known n (e ∷ peers) zero later ((k, a, ns), ps) w =
      (replied-Known n e.1.addr (net_info n e.1.addr) refl a, w)
  reply_of-Known n (e ∷ peers) (suc k) later (p, ps) w = reply_of-Known n peers k later ps w

  replies-Known :
      (n : ℕ) (peers : List (String × PeerInfo)) (ds : List Delivery)
      → All Entry peers
      → All AnswerKnown (replies net_info n peers ds)
  unfolding replies
  replies-Known n peers [] v = tt
  replies-Known n peers (from_peer k ∷ ds) v =
      reply_of-Known n peers k _ v (replies-Known n peers ds v)
  replies-Known n peers (cancel ∷ ds) v = (tt, replies-Known n peers ds v)
  replies-Known n peers (too_late ∷ ds) v = (tt, replies-Known n peers ds v)

  pub unqueried-Known : (m : List (String × PeerInfo)) → All Entry m → All Entry (unqueried m)
  unfolding unqueried
  unqueried-Known [] v = tt
  unqueried-Known (e ∷ m) ((k, a, ns), v) = ((k, a, ns), unqueried-Known m v)

  pub more_peers-Known :
      (m new : List (String × PeerInfo))
      → All Entry m
      → All Entry new
      → All Entry (more_peers (unqueried m) new)
  unfolding more_peers
  more_peers-Known m new v w =
      All-if Entry (ltb (length (unqueried m)) (length new)) new (unqueried m) w
        (unqueried-Known m v)

  abbrev pub RoundKnown : Round → Type 0
  RoundKnown (asked (ok m)) = All Entry m
  RoundKnown _ = Unit

  later_rounds-Known :
      (rest : List (String × PeerInfo) → List Round) (peers : List (String × PeerInfo))
      (o : Option (Result CrawlError (List (String × PeerInfo))))
      → ((m : List (String × PeerInfo)) → All Entry m → All RoundKnown (rest m))
      → All Entry peers
      → Gives o
      → All RoundKnown (later_rounds net_info rest peers o)
  unfolding later_rounds
  later_rounds-Known rest peers none h v g = tt
  later_rounds-Known rest peers (some (err e)) h v g = (tt, tt)
  later_rounds-Known rest peers (some (ok found)) h v g =
      (g, h (more_peers (unqueried peers) found) (more_peers-Known peers found v g))

  pub network_rounds-Known :
      (rounds : List (Option (List Delivery))) (n : ℕ) (peers : List (String × PeerInfo))
      → All Entry peers
      → All RoundKnown (network_rounds net_info n rounds peers)
  unfolding network_rounds get_network_peers
  network_rounds-Known [] n peers v = tt
  network_rounds-Known (none ∷ rounds) n peers v = (tt, tt)
  network_rounds-Known (some ds ∷ rounds) n peers v =
      later_rounds-Known _ peers (get_network_peers net_info n peers ds)
        (λ m. network_rounds-Known rounds (suc n) m) v
        (collect-Known (length peers - 1) [] (replies net_info n peers ds)
          (replies-Known n peers ds v) tt)
