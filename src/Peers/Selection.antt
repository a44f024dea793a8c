-- ===== src/Peers/Selection.antt =====
-- Which endpoints a crawl returns (`filterPeerMap` of pkg/loadtest/tm_network_info.go).
use perpx_load_test.Base.{
  ℕ, zero, suc, ◌≤◌, ◌<◌, ◌≡◌, refl, sym, ap, ◌∙◌, inl, inr, Bool, true, false, ◌&&◌, String, List,
  [], ◌∷◌, ◌++◌, arith, if◌then◌else◌, is_some, length, length-append, take, lt→ltb, leb, lookup,
  Bool-cases, Result, ok, append_nil, append_assoc,
}
use perpx_load_test.Base.Int.{ℤ, pos, leb_ℤ, ltb_ℤ}
use perpx_load_test.Peers.{
  PeerInfo, CrawlError, is_selected, keep, stop_at, filter_from, filter_peer_map,
}

-- The addresses of the peers that a method takes.
abbrev pub selected :
    (String → String) → List (String × PeerInfo) → String → List (String × PeerInfo) → List String
selected ws supplied method [] = []
selected ws supplied method (e ∷ peers) =
    let rest = selected ws supplied method peers in
    if is_selected method (is_some (lookup e.0 supplied)) then ws e.0 ∷ rest else rest

take_all : (n : ℕ) (xs : List String) → length xs ≤ n → take n xs ≡ xs
take_all zero [] h = refl
take_all zero (x ∷ xs) h = absurd (omega arith)
take_all (suc n) [] h = refl
take_all (suc n) (x ∷ xs) h = ap (λ r. x ∷ r) (take_all n xs (omega arith))

take_front : (n : ℕ) (xs ys : List String) → length xs ≡ n → take n (xs ++ ys) ≡ xs
take_front zero [] ys h = refl
take_front zero (x ∷ xs) ys h = absurd (omega arith)
take_front (suc n) [] ys h = absurd (omega arith)
take_front (suc n) (x ∷ xs) ys h = ap (λ r. x ∷ r) (take_front n xs ys (omega arith))

module _ (ws_addr : String → Result CrawlError String) (ws : String → String)
    (parses : (a : String) → ws_addr a ≡ ok (ws a)) where
  round_of :
      (supplied : List (String × PeerInfo)) (method : String) (max_count : ℤ)
      (e : String × PeerInfo) (peers : List (String × PeerInfo)) (result : List String)
      → filter_from ws_addr supplied method max_count (e ∷ peers) result ≡ (
          let kept =
            keep ws_addr (is_selected method (is_some (lookup e.0 supplied))) (ws e.0) result in
          stop_at ws_addr
            (ltb_ℤ (pos 0) max_count && leb_ℤ max_count (pos (length kept)))
            kept
            (filter_from ws_addr supplied method max_count peers kept))
  unfolding filter_from
  round_of supplied method max_count e peers result = rw (parses e.0) refl

  stop_at-take :
      (n : ℕ) (kept all : List String) (rest : Result CrawlError (List String))
      → 0 < n
      → length kept ≤ n
      → (length kept < n → rest ≡ ok (take n (kept ++ all)))
      → stop_at ws_addr (ltb_ℤ (pos 0) (pos n) && leb_ℤ (pos n) (pos (length kept))) kept rest
        ≡ ok (take n (kept ++ all))
  unfolding stop_at
  stop_at-take n kept all rest z h f = elim (Bool-cases (leb n (length kept))) [
    | inl e ↦
        let full : length kept ≡ n = ground arith in
        rw (lt→ltb 0 n z, e) (ap ok (sym (take_front n kept all full)))
    | inr e ↦ let room : length kept < n = ground arith in rw (lt→ltb 0 n z, e) (f room)
  ]

  keep-take :
      (b : Bool) (n : ℕ) (a : String) (result all : List String)
      (later : List String → Result CrawlError (List String))
      → 0 < n
      → length result < n
      → ((kept : List String) → length kept < n → later kept ≡ ok (take n (kept ++ all)))
      → (let kept = keep ws_addr b a result in
          stop_at ws_addr
            (ltb_ℤ (pos 0) (pos n) && leb_ℤ (pos n) (pos (length kept)))
            kept
            (later kept))
        ≡ ok (take n (result ++ (if b then a ∷ all else all)))
  unfolding keep
  keep-take true n a result all later z h f =
      let one : length (result ++ (a ∷ [])) ≤ n = omega (arith, length-append result (a ∷ [])) in
      stop_at-take n (result ++ (a ∷ [])) all (later (result ++ (a ∷ []))) z one (f _)
      ∙ ap (λ l. ok (take n l)) (append_assoc result (a ∷ []) all)
  keep-take false n a result all later z h f =
      stop_at-take n result all (later result) z (omega arith) (f result)

  filter_from-take :
      (supplied : List (String × PeerInfo)) (method : String) (n : ℕ)
      (peers : List (String × PeerInfo)) (result : List String)
      → 0 < n
      → length result < n
      → filter_from ws_addr supplied method (pos n) peers result
        ≡ ok (take n (result ++ selected ws supplied method peers))
  filter_from-take supplied method n [] result z h =
      unfold filter_from in
      ap ok (sym (take_all n result (omega arith)) ∙ ap (take n) (append_nil result))
  filter_from-take supplied method n (e ∷ peers) result z h =
      round_of supplied method (pos n) e peers result
      ∙ keep-take (is_selected method (is_some (lookup e.0 supplied))) n (ws e.0) result
          (selected ws supplied method peers) (filter_from ws_addr supplied method (pos n) peers) z
          h (λ kept. filter_from-take supplied method n peers kept z)

  -- Where every address can be parsed and the number of endpoints is limited to some positive number,
  -- the crawl returns the first that many, in the order of the map, of the peers that the selection
  -- method takes: those of the supplied list, those not of it, or all.
  pub filter_peer_map-take :
      (supplied peers : List (String × PeerInfo)) (method : String) (n : ℕ)
      → 0 < n
      → filter_peer_map ws_addr supplied peers method (pos n)
        ≡ ok (take n (selected ws supplied method peers))
  unfolding filter_peer_map
  filter_peer_map-take supplied peers method n z = filter_from-take supplied method n peers [] z z
