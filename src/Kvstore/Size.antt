-- ===== src/Kvstore/Size.antt =====
-- The transactions of a validated configuration (pkg/loadtest/client_kvstore.go).
use perpx_load_test.Base.{
  ℕ, zero, suc, ◌+◌, ◌-◌, ◌%◌, ◌≤◌, ◌<◌, ◌≡◌, refl, ap, List, [], ◌∷◌, ◌++◌, map, Bool, true, false,
  ◌&&◌, ◌||◌, Option, none, some, arith, ltb, leb, ◌==◌, length, get_or, ok, err, if◌then◌else◌,
  inl, inr, Result-cases, All, All-append, length-append, length-map,
}
use perpx_load_test.Base.Int.{ℤ, pos, negsuc, pos_part, InInt64, sub_int64, sub_int64_pos, two63}
use perpx_load_test.Config.{Config, FactoryError, max_txs_per_endpoint}
use perpx_load_test.Kvstore.{
  Client, Read, read_failed, read, str_chars, str_char, rand_str, check_size, validate_config,
  make_client, with_suffix_len, required_suffix_len, new_client, generate_tx,
}
use perpx_load_test.Kvstore.Suffix.{required_suffix_len-Suffices}

-- `rand.Read` filled the whole buffer of `n` bytes, as it is documented to.
abbrev pub IsFull : ℤ → Read → Type 0
IsFull n read_failed = ⊥
IsFull n (read k bytes) = (pos k ≡ n) × (pos (length bytes) ≡ n)

-- An ASCII letter or digit.
abbrev pub is_alnum : ℕ → Bool
is_alnum c = (leb b'0' c && leb c b'9') || (leb b'A' c && leb c b'Z') || (leb b'a' c && leb c b'z')

all_alnum : List ℕ → Bool
all_alnum [] = true
all_alnum (c ∷ cs) = is_alnum c && all_alnum cs

get_or_alnum :
    (cs : List ℕ) (i : ℕ) → all_alnum cs ≡ true → i < length cs → is_alnum (get_or cs i 0) ≡ true
unfolding all_alnum
get_or_alnum [] i h lt = absurd (omega arith)
get_or_alnum (c ∷ cs) zero h lt = and_left (is_alnum c) (all_alnum cs) h
  where
    and_left : (a b : Bool) → (a && b) ≡ true → a ≡ true
    and_left true b q = refl
    and_left false b q = q
get_or_alnum (c ∷ cs) (suc i) h lt =
    get_or_alnum cs i (and_right (is_alnum c) (all_alnum cs) h) (omega arith)
  where
    and_right : (a b : Bool) → (a && b) ≡ true → b ≡ true
    and_right true b q = q
    and_right false b q = cc

str_chars_alnum : all_alnum str_chars ≡ true
unfolding all_alnum
str_chars_alnum = refl

abbrev pub IsAlnum : List ℕ → Type 0
IsAlnum = All (λ c. is_alnum c ≡ true)

map-str_char : (bytes : List ℕ) → IsAlnum (map str_char bytes)
unfolding str_char
map-str_char [] = tt
map-str_char (b ∷ bs) =
    (get_or_alnum str_chars (b % 62) str_chars_alnum (omega arith), map-str_char bs)

-- A draw of `n` characters.
abbrev Drawn : ℕ → Option (List ℕ) → Type 0
Drawn n none = ⊥
Drawn n (some s) = (length s ≡ n) × IsAlnum s

rand_str-Drawn : (n : ℕ) (r : Read) → IsFull (pos n) r → Drawn n (rand_str (pos n) r)
unfolding rand_str
rand_str-Drawn zero r f = (refl, tt)
rand_str-Drawn (suc n) read_failed f = absurd f
rand_str-Drawn (suc n) (read k bytes) (p, q) =
    rw (nonzero, full) (rw (length-map bytes str_char) (ground arith), map-str_char bytes)
  where
    nonzero : leb (suc n) 0 ≡ false
    nonzero = ground arith

    full : (k == suc n) ≡ true
    full = ground arith

-- A key and a value with "=" between them, both alphanumeric, the value not empty, of `size` bytes.
pub record IsKeyValueTx (size : ℤ) (tx : List ℕ) : Type 0 where
  pub key : List ℕ
  pub value : List ℕ
  pub shape : tx ≡ key ++ (b'=' ∷ value)
  pub key_alnum : IsAlnum key
  pub value_alnum : IsAlnum value
  pub value_given : 0 < length value
  pub size_exact : pos (length tx) ≡ size

-- The size that `ValidateConfig` has checked.
check_size-ok :
    (c : Config) (k : ℕ)
    → InInt64 c.size
    → check_size c (ok k) ≡ none
    → (s : ℕ) × (c.size ≡ pos s) × (k + 7 ≤ s) × (s < two63)
unfolding check_size
check_size-ok c k range h = size_of c.size range h
  where
    size_of :
        (z : ℤ)
        → InInt64 z
        → check_size (record c { size = z }) (ok k) ≡ none
        → (s : ℕ) × (z ≡ pos s) × (k + 7 ≤ s) × (s < two63)
    size_of (pos s) i q = (s, refl, ground arith, i)
    size_of (negsuc s) i q = cc

-- Validation leaves a suffix length and a size that has room for it.
validated :
    (c : Config)
    → InInt64 c.size
    → validate_config c ≡ none
    → (k s : ℕ) × (required_suffix_len (max_txs_per_endpoint c) ≡ ok k)
      × (c.size ≡ pos s)
      × (k + 7 ≤ s)
      × (s < two63)
      × (k ≤ 16)
unfolding validate_config
validated c range h = elim (Result-cases (required_suffix_len (max_txs_per_endpoint c))) [
  | inl (k, e) ↦
      let (s, f0, f1, f2) =
        check_size-ok c k range (rw e at (sized (ltb (max_txs_per_endpoint c) 1) _ h)) in
      (k, s, e, f0, f1, f2, bound k e)
  | inr (x, e) ↦ absurd (refused x (rw e at (sized (ltb (max_txs_per_endpoint c) 1) _ h)))
]
  where
    sized :
        (b : Bool) (e : FactoryError) {o : Option FactoryError}
        → (if b then some e else o) ≡ none
        → o ≡ none
    sized true e q = cc
    sized false e q = q

    refused : (x : FactoryError) → check_size c (err x) ≡ none → ⊥
    refused x q = cc

    bound : (k : ℕ) → required_suffix_len (max_txs_per_endpoint c) ≡ ok k → k ≤ 16
    bound k e = (rw e at (required_suffix_len-Suffices (max_txs_per_endpoint c))).0

-- A client made for a size with room has the lengths that add up to it.
value_len_lem :
    (s k n : ℕ)
    → n + k + 1 ≤ s
    → s < two63
    → sub_int64 (sub_int64 (pos s) (pos (n + k))) (pos 1) ≡ pos (s - (n + k) - 1)
value_len_lem s k n h q =
    rw (sub_int64_pos s (n + k) (omega arith) q) (sub_int64_pos _ 1 (omega arith) (omega arith))

tx_of_draws :
    (prefix suffix value : List ℕ) (s k : ℕ)
    → (length prefix ≡ 5) × IsAlnum prefix
    → (length suffix ≡ k) × IsAlnum suffix
    → (length value ≡ s - (5 + k) - 1) × IsAlnum value
    → k + 7 ≤ s
    → IsKeyValueTx (pos s) ((prefix ++ suffix) ++ (b'=' ∷ value))
tx_of_draws prefix suffix value s k (pl, pa) (sl, sa) (vl, va) h = record {
  key = prefix ++ suffix;
  value = value;
  shape = refl;
  key_alnum = All-append _ prefix suffix pa sa;
  value_alnum = va;
  value_given = omega arith;
  size_exact = ap pos total;
}
  where
    total : length ((prefix ++ suffix) ++ (b'=' ∷ value)) ≡ s
    total =
        omega (arith, length-append (prefix ++ suffix) (b'=' ∷ value), length-append prefix suffix)

Drawn-some :
    (n : ℕ) (o : Option (List ℕ))
    → Drawn n o
    → (s : List ℕ) × (o ≡ some s) × ((length s ≡ n) × IsAlnum s)
Drawn-some n none d = absurd d
Drawn-some n (some s) d = (s, refl, d)

new_client-ok :
    (c : Config) (r0 : Read) (prefix : List ℕ) (k s : ℕ)
    → rand_str (pos 5) r0 ≡ some prefix
    → length prefix ≡ 5
    → required_suffix_len (max_txs_per_endpoint c) ≡ ok k
    → c.size ≡ pos s
    → k + 7 ≤ s
    → s < two63
    → new_client c r0
      ≡ some (
          ok (record {
            key_prefix = prefix;
            key_suffix_len = pos k;
            value_len = pos (s - (5 + k) - 1);
          }))
unfolding new_client with_suffix_len make_client
new_client-ok c r0 prefix k s p l e size room small =
    rw (p, new_client)
      (rw (e, with_suffix_len) (rw (size, l, value_len_lem s k 5 (omega arith) small)))

generate_tx-some :
    (cl : Client) (r1 r2 : Read) (suffix value : List ℕ)
    → rand_str cl.key_suffix_len r1 ≡ some suffix
    → rand_str cl.value_len r2 ≡ some value
    → generate_tx cl r1 r2 ≡ some ((cl.key_prefix ++ suffix) ++ (b'=' ∷ value))
unfolding generate_tx
generate_tx-some cl r1 r2 suffix value p q = rw (p, generate_tx) (rw (q, generate_tx))

-- If `ValidateConfig` accepts a configuration whose size is an `int`, and the system's random
-- source fills each buffer it is given, then `NewClient` makes a client, without a panic or an
-- error, and every transaction that the client generates is an alphanumeric key, "=" and a
-- non-empty alphanumeric value, of exactly the configured size.
pub generate_tx-IsKeyValueTx :
    (c : Config) (r0 : Read) (draw1 draw2 : ℕ → Read)
    → InInt64 c.size
    → validate_config c ≡ none
    → IsFull (pos 5) r0
    → ((n : ℕ) → IsFull (pos n) (draw1 n))
    → ((n : ℕ) → IsFull (pos n) (draw2 n))
    → (cl : Client) × (tx : List ℕ) × (new_client c r0 ≡ some (ok cl))
      × (generate_tx cl (draw1 (pos_part cl.key_suffix_len)) (draw2 (pos_part cl.value_len))
          ≡ some tx)
      × IsKeyValueTx c.size tx
generate_tx-IsKeyValueTx c r0 draw1 draw2 range h f0 f1 f2 =
    let (k, s, e, size, room, small, _) = validated c range h in
    let (prefix, p, pd) = Drawn-some 5 _ (rand_str-Drawn 5 r0 f0) in
    let (suffix, q, qd) = Drawn-some k _ (rand_str-Drawn k (draw1 k) (f1 k)) in
    let m : ℕ = s - (5 + k) - 1 in
    let (value, v, vd) = Drawn-some m _ (rand_str-Drawn m (draw2 m) (f2 m)) in
    let cl : Client = record { key_prefix = prefix; key_suffix_len = pos k; value_len = pos m } in
    (
      cl,
      (prefix ++ suffix) ++ (b'=' ∷ value),
      new_client-ok c r0 prefix k s p pd.0 e size room small,
      generate_tx-some cl (draw1 k) (draw2 m) suffix value q v,
      rw size (tx_of_draws prefix suffix value s k pd qd vd room),
    )
