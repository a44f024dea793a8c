-- ===== src/Rpc/Hex.antt =====
-- The encoding and decoding of `HexBytes` of pkg/loadtest/rpc.go.
use perpx_load_test.Base.{
  ℕ, ◌+◌, ◌*◌, ◌/◌, ◌%◌, ◌<◌, ◌≡◌, ◌↔◌, inl, inr, refl, sym, ap, ◌∙◌, Bool, true, false, not, ◌||◌,
  Option, none, some, List, [], ◌∷◌, ◌++◌, map, arith, if◌then◌else◌, ◌==◌, All, is_some, Result,
  ok, err, ◌>>=◌, Result-cases,
}
use perpx_load_test.Rpc.{
  RpcFailure, odd_length, bad_byte, no_quotes, hex_digit, encode_hex, to_upper, marshal_json,
  hex_value, byte_of, decode_hex, unsnoc, unmarshal_json,
}

abbrev pub IsByte : ℕ → Type 0
IsByte b = b < 256

hex_value-to_upper : (c : ℕ) → hex_value (to_upper c) ≡ hex_value c
unfolding hex_value to_upper
hex_value-to_upper c = ground arith

hex_value-hex_digit : (n : ℕ) → n < 16 → hex_value (hex_digit n) ≡ some n
unfolding hex_value hex_digit
hex_value-hex_digit n h = ground arith

digit_of_value : (c v : ℕ) → hex_value c ≡ some v → (v < 16) × (to_upper c ≡ to_upper (hex_digit v))
unfolding hex_value hex_digit to_upper
digit_of_value c v h = ground arith

value_of_digit : (c n : ℕ) → n < 16 → to_upper c ≡ to_upper (hex_digit n) → hex_value c ≡ some n
value_of_digit c n h q =
    sym (hex_value-to_upper c)
    ∙ ap hex_value q
    ∙ hex_value-to_upper (hex_digit n)
    ∙ hex_value-hex_digit n h

abbrev Uppers : List ℕ → List ℕ → Type 0
Uppers s bz = All IsByte bz × (map to_upper s ≡ map to_upper (encode_hex bz))

ok_eq : (a b : ℕ) → ◌≡◌ {A = Result RpcFailure ℕ} (ok a) (ok b) → a ≡ b
ok_eq a b h = cc

byte_of-ok :
    (c d b : ℕ) (o p : Option ℕ)
    → hex_value c ≡ o
    → hex_value d ≡ p
    → byte_of c d o p ≡ ok b
    → (b < 256)
      × (to_upper c ≡ to_upper (hex_digit (b / 16)))
      × (to_upper d ≡ to_upper (hex_digit (b % 16)))
unfolding byte_of
byte_of-ok c d b none p q r h = cc
byte_of-ok c d b (some v) none q r h = cc
byte_of-ok c d b (some v) (some w) q r h =
    let (hv, ev) = digit_of_value c v q in
    let (hw, ew) = digit_of_value d w r in
    let e : v * 16 + w ≡ b = ok_eq _ _ h in
    (
      omega arith,
      ev ∙ ap (λ n. to_upper (hex_digit n)) (omega arith),
      ew ∙ ap (λ n. to_upper (hex_digit n)) (omega arith),
    )

byte_of-digits :
    (c d b : ℕ)
    → b < 256
    → to_upper c ≡ to_upper (hex_digit (b / 16))
    → to_upper d ≡ to_upper (hex_digit (b % 16))
    → byte_of c d (hex_value c) (hex_value d) ≡ ok b
unfolding byte_of
byte_of-digits c d b h q r =
    rw (value_of_digit c (b / 16) (omega arith) q, value_of_digit d (b % 16) (omega arith) r)
      (ap ok (omega arith))

cons-ok :
    (r : Result RpcFailure (List ℕ)) (b : ℕ) (bz : List ℕ)
    → (r >>= λ rest. ok (b ∷ rest)) ≡ ok bz
    → (rest : List ℕ) × (r ≡ ok rest) × (bz ≡ b ∷ rest)
cons-ok (ok rest) b bz h = (rest, refl, cc)
cons-ok (err e) b bz h = cc

decode_hex-Uppers : (s bz : List ℕ) → decode_hex s ≡ ok bz → Uppers s bz
unfolding decode_hex encode_hex
decode_hex-Uppers [] [] h = (tt, refl)
decode_hex-Uppers [] (b ∷ bz) h = cc
decode_hex-Uppers (c ∷ []) bz h = absurd (one_digit (is_some (hex_value c)) h)
  where
    one_digit : (t : Bool) → (if t then err odd_length else err (bad_byte c)) ≡ ok bz → ⊥
    one_digit true h = cc
    one_digit false h = cc
decode_hex-Uppers (c ∷ d ∷ s) bz h = elim (Result-cases (byte_of c d (hex_value c) (hex_value d))) [
  | inr (e, q) ↦ let h' = rw q at h in cc
  | inl (b, q) ↦
      let (rest, r, e) = cons-ok (decode_hex s) b bz (rw q at h) in
      let (lt, up, low) = byte_of-ok c d b (hex_value c) (hex_value d) refl refl q in
      let (v, same) = decode_hex-Uppers s rest r in
      rw e (
        (lt, v),
        ap (λ x. x ∷ to_upper d ∷ map to_upper s) up
            ∙ ap (λ x. to_upper (hex_digit (b / 16)) ∷ x ∷ map to_upper s) low
            ∙ ap (λ x. to_upper (hex_digit (b / 16)) ∷ to_upper (hex_digit (b % 16)) ∷ x) same,
      )
]

heads : (x y : ℕ) (xs ys : List ℕ) → x ∷ xs ≡ y ∷ ys → (x ≡ y) × (xs ≡ ys)
heads x y xs ys h = (cc, cc)

Uppers-decode_hex :
    (s bz : List ℕ)
    → All IsByte bz
    → map to_upper s ≡ map to_upper (encode_hex bz)
    → decode_hex s ≡ ok bz
unfolding decode_hex encode_hex
Uppers-decode_hex [] [] v h = refl
Uppers-decode_hex [] (b ∷ bz) v h = cc
Uppers-decode_hex (c ∷ s) [] v h = cc
Uppers-decode_hex (c ∷ []) (b ∷ bz) v h = cc
Uppers-decode_hex (c ∷ d ∷ s) (b ∷ bz) (lt, v) h =
    let (up, h1) = heads _ _ _ _ h in
    let (low, h2) = heads _ _ _ _ h1 in
    rw (byte_of-digits c d b lt up low, Uppers-decode_hex s bz v h2) refl

unsnoc-append : (x : ℕ) (s : List ℕ) → (unsnoc x s).0 ++ ((unsnoc x s).1 ∷ []) ≡ x ∷ s
unfolding unsnoc
unsnoc-append x [] = refl
unsnoc-append x (y ∷ s) = ap (λ r. x ∷ r) (unsnoc-append y s)

map-append : (s t : List ℕ) → map to_upper (s ++ t) ≡ map to_upper s ++ map to_upper t
map-append [] t = refl
map-append (x ∷ s) t = ap (λ r. to_upper x ∷ r) (map-append s t)

snoc_eq : (s t : List ℕ) (x y : ℕ) → s ++ (x ∷ []) ≡ t ++ (y ∷ []) → (s ≡ t) × (x ≡ y)
snoc_eq [] [] x y h = (refl, (heads x y [] [] h).0)
snoc_eq [] (b ∷ []) x y h = let h' = (heads x b [] (y ∷ []) h).1 in cc
snoc_eq [] (b ∷ c ∷ t) x y h = let h' = (heads x b [] (c ∷ (t ++ (y ∷ []))) h).1 in cc
snoc_eq (a ∷ []) [] x y h = let h' = (heads a y (x ∷ []) [] h).1 in cc
snoc_eq (a ∷ c ∷ s) [] x y h = let h' = (heads a y (c ∷ (s ++ (x ∷ []))) [] h).1 in cc
snoc_eq (a ∷ s) (b ∷ t) x y h =
    let (p, q) = heads a b (s ++ (x ∷ [])) (t ++ (y ∷ [])) h in
    let (e, f) = snoc_eq s t x y q in (ap (λ z. z ∷ s) p ∙ ap (λ z. b ∷ z) e, f)

quote_of_upper : (q : ℕ) → to_upper q ≡ b'"' → q ≡ b'"'
unfolding to_upper
quote_of_upper q h = ground arith

upper_of_quote : to_upper b'"' ≡ b'"'
unfolding to_upper
upper_of_quote = refl

quoted :
    (q r : ℕ) (inner bz : List ℕ)
    → (if not (q == b'"') || not (r == b'"') then err no_quotes else decode_hex inner) ≡ ok bz
    → (q ≡ b'"') × (r ≡ b'"') × (decode_hex inner ≡ ok bz)
quoted q r inner bz h = ground arith

decoded :
    (q r : ℕ) (inner bz : List ℕ)
    → q ≡ b'"'
    → r ≡ b'"'
    → decode_hex inner ≡ ok bz
    → (if not (q == b'"') || not (r == b'"') then err no_quotes else decode_hex inner) ≡ ok bz
decoded q r inner bz h k d = ground arith

no_single : (x : ℕ) (t : List ℕ) → x ∷ [] ≡ b'"' ∷ (t ++ (b'"' ∷ [])) → ⊥
no_single x [] h = let e = (heads _ _ _ _ h).1 in cc
no_single x (y ∷ t) h = let e = (heads _ _ _ _ h).1 in cc

uppers_of :
    (q x : ℕ) (s : List ℕ)
    → map to_upper (q ∷ x ∷ s)
      ≡ to_upper q ∷ (map to_upper (unsnoc x s).0 ++ (to_upper (unsnoc x s).1 ∷ []))
uppers_of q x s =
    ap (λ r. to_upper q ∷ map to_upper r) (sym (unsnoc-append x s))
    ∙ ap (λ r. to_upper q ∷ r) (map-append (unsnoc x s).0 ((unsnoc x s).1 ∷ []))

-- `UnmarshalJSON` of `HexBytes` accepts just the texts that are, with their letters made large, what
-- `MarshalJSON` writes for some bytes, and gives back these bytes.
pub unmarshal_json_iff :
    (json bz : List ℕ)
    → (unmarshal_json json ≡ ok bz) ↔ (All IsByte bz × (map to_upper json ≡ marshal_json bz))
unfolding unmarshal_json marshal_json
unmarshal_json_iff [] bz = ((λ h. cc), (λ h. let e = h.1 in cc))
unmarshal_json_iff (q ∷ []) bz = ((λ h. cc), (λ h. absurd (no_single _ _ h.1)))
unmarshal_json_iff (q ∷ x ∷ s) bz = (
  (λ h.
      let (eq, er, d) = quoted q (unsnoc x s).1 (unsnoc x s).0 bz h in
      let (v, same) = decode_hex-Uppers (unsnoc x s).0 bz d in
      (
        v,
        uppers_of q x s
            ∙ ap (λ c. c ∷ (map to_upper (unsnoc x s).0 ++ (to_upper (unsnoc x s).1 ∷ [])))
                (ap to_upper eq ∙ upper_of_quote)
            ∙ ap (λ c. b'"' ∷ (map to_upper (unsnoc x s).0 ++ (c ∷ [])))
                (ap to_upper er ∙ upper_of_quote)
            ∙ ap (λ t. b'"' ∷ (t ++ (b'"' ∷ []))) same,
      )),
  (λ h.
      let (eq, rest) = heads _ _ _ _ (sym (uppers_of q x s) ∙ h.1) in
      let (same, er) =
        snoc_eq (map to_upper (unsnoc x s).0) (map to_upper (encode_hex bz))
          (to_upper (unsnoc x s).1) b'"' rest in
      decoded q (unsnoc x s).1 (unsnoc x s).0 bz (quote_of_upper q eq)
        (quote_of_upper (unsnoc x s).1 er) (Uppers-decode_hex (unsnoc x s).0 bz h.0 same)),
)

upper_twice : (s : List ℕ) → map to_upper (map to_upper s) ≡ map to_upper s
upper_twice [] = refl
upper_twice (c ∷ s) = cc (upper_again c, upper_twice s)
  where
    upper_again : (c : ℕ) → to_upper (to_upper c) ≡ to_upper c
    upper_again c = unfold to_upper in ground arith

marshal_json-upper : (bz : List ℕ) → map to_upper (marshal_json bz) ≡ marshal_json bz
unfolding marshal_json
marshal_json-upper bz =
    ap (λ c. c ∷ map to_upper (map to_upper (encode_hex bz) ++ (b'"' ∷ []))) upper_of_quote
    ∙ ap (λ r. b'"' ∷ r) (map-append (map to_upper (encode_hex bz)) (b'"' ∷ []))
    ∙ ap (λ r. b'"' ∷ (r ++ (to_upper b'"' ∷ []))) (upper_twice (encode_hex bz))
    ∙ ap (λ c. b'"' ∷ (map to_upper (encode_hex bz) ++ (c ∷ []))) upper_of_quote

-- `UnmarshalJSON` of `HexBytes` reads back what `MarshalJSON` has written for bytes.
pub unmarshal_json-marshal_json :
    (bz : List ℕ) → All IsByte bz → unmarshal_json (marshal_json bz) ≡ ok bz
unmarshal_json-marshal_json bz v =
    (unmarshal_json_iff (marshal_json bz) bz).1 (v, marshal_json-upper bz)
