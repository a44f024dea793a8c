-- ===== src/Transactor/Opening.antt =====
-- When `NewTransactor` gives a transactor, and when `receiveLoop` returns
-- (pkg/loadtest/transactor.go).
use perpx_load_test.Base.{
  ℕ, ◌<◌, ◌≡◌, refl, sym, ap, ◌∙◌, ◌↔◌, ◌⊎◌, inl, inr, Bool, true, false, not, ◌&&◌, ◌||◌, Option,
  none, some, List, [], ◌∷◌, arith, leb, codes, same, ok, ◌>>=◌, bind_ok, guard_ok, ok_eq,
}
use perpx_load_test.Config.{Config}
use perpx_load_test.Transactor.{Transactor, new_transactor}
use perpx_load_test.Transactor.Connection.{
  ConnectionError, Url, Dialled, refused, responded, has_control, checked_url,
  validate_websocket_url, client_made, connected_by, unless, open_transactor, Reading, message,
  closed_normally, read_failed, receive_loop,
}

-- Whether a test holds of some element.
abbrev any {ℓ} : {A : Type ℓ} → (A → Bool) → List A → Bool
any f [] = false
any f (x ∷ xs) = f x || any f xs

-- The URL, the client and the answer of the endpoint are as they must be.
pub record IsOpened (parse : List ℕ → Option Url) (clients : Config → Option (Option ℕ))
    (dial : List ℕ → Dialled) (raw : List ℕ) (c : Config) (r : List ℕ × Transactor) : Type 0 where
  pub clean : has_control raw ≡ false
  pub url : Url
  pub parsed : parse raw ≡ some url
  pub web_socket : (same url.scheme (codes "ws") ≡ true) ⊎ (same url.scheme (codes "wss") ≡ true)
  pub has_host : same url.host [] ≡ false
  pub has_client : clients c ≡ some none
  pub accepted : (status : ℕ) × (dial url.text ≡ responded status) × (status < 400)
  pub made : r ≡ (url.text, new_transactor c)

unless_ok {ℓ} :
    {A : Type ℓ} (o : Option ConnectionError) (a b : A) → unless o a ≡ ok b → (o ≡ none) × (a ≡ b)
unfolding unless
unless_ok none a b h = (refl, ok_eq h)
unless_ok (some e) a b h = cc

client_ok : (o : Option (Option ℕ)) → client_made o ≡ none → o ≡ some none
unfolding client_made
client_ok none h = cc
client_ok (some (some e)) h = cc
client_ok (some none) h = refl

connected_ok :
    (d : Dialled) → connected_by d ≡ none → (status : ℕ) × (d ≡ responded status) × (status < 400)
unfolding connected_by
connected_ok (refused e) h = cc
connected_ok (responded status) h = (status, refl, ground arith)

scheme_of : (a b : Bool) → (not a && not b) ≡ false → (a ≡ true) ⊎ (b ≡ true)
scheme_of true b h = inl refl
scheme_of false b h = inr (ground arith)

of_scheme : (a b : Bool) → (a ≡ true) ⊎ (b ≡ true) → (not a && not b) ≡ false
of_scheme a b h = ground arith

checked_ok :
    (o : Option Url) (u : Url)
    → checked_url o ≡ ok u
    → (o ≡ some u)
      × ((same u.scheme (codes "ws") ≡ true) ⊎ (same u.scheme (codes "wss") ≡ true))
      × (same u.host [] ≡ false)
unfolding checked_url
checked_ok none u h = cc
checked_ok (some v) u h =
    let (s, k) = guard_ok _ _ _ u h in
    let (n, q) = guard_ok _ _ _ u k in
    let same_url : v ≡ u = ok_eq q in
    (
      ap (λ x. some x) same_url,
      scheme_of _ _ (
          ap (λ x. not (same x.scheme (codes "ws")) && not (same x.scheme (codes "wss")))
            (sym same_url)
          ∙ s),
      ap (λ x. same x.host []) (sym same_url) ∙ n,
    )

module _ (parse : List ℕ → Option Url) (clients : Config → Option (Option ℕ))
    (dial : List ℕ → Dialled) (raw : List ℕ) (c : Config) where
  opens-IsOpened :
      (r : List ℕ × Transactor)
      → open_transactor parse clients dial raw c ≡ ok r
      → IsOpened parse clients dial raw c r
  unfolding open_transactor validate_websocket_url
  opens-IsOpened r h =
      let (u, (v, k)) = bind_ok (validate_websocket_url parse raw) _ r h in
      let (w, (m, d)) = bind_ok (unless (client_made (clients c)) u) _ r k in
      let (made, same_url) = unless_ok (client_made (clients c)) u w m in
      let (up, result) = unless_ok (connected_by (dial w.text)) _ r d in
      let (clean, checked) = guard_ok (has_control raw) _ _ u v in
      let (p, s, n) = checked_ok (parse raw) u checked in
      record {
        clean = clean;
        url = u;
        parsed = p;
        web_socket = s;
        has_host = n;
        has_client = client_ok (clients c) made;
        accepted = connected_ok (dial u.text) (ap (λ x. connected_by (dial x.text)) same_url ∙ up);
        made = sym result ∙ ap (λ x. (x.text, new_transactor c)) (sym same_url);
      }

  valid_url :
      (r : List ℕ × Transactor) (v : IsOpened parse clients dial raw c r)
      → validate_websocket_url parse raw ≡ ok v.url
  unfolding validate_websocket_url checked_url
  valid_url r v =
      let s =
        of_scheme (same v.url.scheme (codes "ws")) (same v.url.scheme (codes "wss")) v.web_socket in
      rw (v.clean, v.parsed, s, v.has_host) refl

  connects :
      (d : Dialled) (status : ℕ) → d ≡ responded status → status < 400 → connected_by d ≡ none
  unfolding connected_by
  connects d status q h = let below : leb 400 status ≡ false = ground arith in rw (q, below) refl

  IsOpened-opens :
      (r : List ℕ × Transactor)
      → IsOpened parse clients dial raw c r
      → open_transactor parse clients dial raw c ≡ ok r
  unfolding open_transactor
  IsOpened-opens r v =
      let (status, q, h) = v.accepted in
      let made : client_made (clients c) ≡ none =
        ap client_made v.has_client ∙ unfold client_made in refl in
      let up = connects (dial v.url.text) status q h in
      ap
        (λ x. x >>= λ u. unless (client_made (clients c)) u >>= λ w.
          unless (connected_by (dial w.text)) (w.text, new_transactor c))
        (valid_url r v)
      ∙ ap
          (λ o.
            unless o v.url >>= λ w. unless (connected_by (dial w.text)) (w.text, new_transactor c))
          made
      ∙ unfold unless in
        ap (λ o. unless o (v.url.text, new_transactor c)) up ∙ ap (λ x. ok x) (sym v.made)

  -- `NewTransactor` gives a transactor exactly where the address has no line break, is parsed as a
  -- URL with the scheme `ws` or `wss` and a host, the client factory is registered and gives a client,
  -- and the endpoint answers with a status below 400; it is a new one, which keeps the parsed address.
  pub open_transactor_iff :
      (r : List ℕ × Transactor)
      → (open_transactor parse clients dial raw c ≡ ok r) ↔ IsOpened parse clients dial raw c r
  open_transactor_iff r = (opens-IsOpened r, IsOpened-opens r)

-- A reading after which the loop returns.
abbrev pub is_last : Reading → Bool
is_last read_failed = true
is_last (message stop) = stop
is_last (closed_normally stop) = stop

-- `receiveLoop` returns exactly at a reading that failed or after which the stop flag is set; a normal
-- closing of the connection does not end it.
pub receive_loop-any : (rs : List Reading) → receive_loop rs ≡ any is_last rs
unfolding receive_loop
receive_loop-any [] = refl
receive_loop-any (read_failed ∷ rs) = refl
receive_loop-any (message true ∷ rs) = refl
receive_loop-any (message false ∷ rs) = receive_loop-any rs
receive_loop-any (closed_normally true ∷ rs) = refl
receive_loop-any (closed_normally false ∷ rs) = receive_loop-any rs
