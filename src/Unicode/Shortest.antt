-- ===== src/Unicode/Shortest.antt =====
-- What Utf8::Decode accepts is what Utf8::Encode writes.
use dartino_sdk.Base.{
  ℕ, ◌+◌, ◌-◌, ◌*◌, ◌≤◌, ◌<◌, ◌≡◌, refl, sym, ap, ◌∙◌, Bool, true, false, Option, none, some, List,
  [], ◌∷◌, arith, take, ltb, leb, leb→le, subst, ◌==◌, Bool-cases, inl, inr,
}
use dartino_sdk.Unicode.{trail_bytes, encode8, trail, finish, decode8}

abbrev pub AllBytes : List ℕ → Type 0
AllBytes [] = Unit
AllBytes (u ∷ us) = (u < 256) × AllBytes us

-- The result of Decode holds a code point, and it is the one that the bytes read encode.
abbrev Encodes : List ℕ → Option ℕ × ℕ → Type 0
Encodes us r = (c : ℕ) → r.0 ≡ some c → encode8 c ≡ some (take r.1 us)

encode_two :
    (u u1 : ℕ)
    → 192 ≤ u
    → u < 224
    → 128 ≤ u1
    → u1 < 192
    → 128 ≤ (u - 192) * 64 + (u1 - 128)
    → encode8 ((u - 192) * 64 + (u1 - 128)) ≡ some (u ∷ u1 ∷ [])
unfolding encode8
encode_two u u1 h k b b' m = ground arith

finish_two :
    (u : ℕ) (us : List ℕ)
    → 192 ≤ u
    → u < 224
    → AllBytes us
    → Encodes (u ∷ us) (finish 2 2 (trail 1 us u false))
unfolding finish trail
finish_two u [] h k b c e = absurd (ground arith)
finish_two u (u1 ∷ us) h k b c e =
    let low : 128 ≤ u1 = ground (arith, b.0) in
    let high : u1 < 192 = ground (arith, b.0) in
    let value : c ≡ (u - 192) * 64 + (u1 - 128) = ground (arith, b.0) in
    let least : 128 ≤ c = ground (arith, b.0) in
    let count : (finish 2 2 (trail 1 (u1 ∷ us) u false)).1 ≡ 2 = ground (arith, b.0) in
    ap encode8 value
    ∙ encode_two u u1 h k low high (omega (arith, value, least))
    ∙ ap (λ i. some (take i (u ∷ u1 ∷ us))) (sym count)

encode_three :
    (u u1 u2 : ℕ)
    → 224 ≤ u
    → u < 240
    → 128 ≤ u1
    → u1 < 192
    → 128 ≤ u2
    → u2 < 192
    → 2048 ≤ (u - 224) * 4096 + (u1 - 128) * 64 + (u2 - 128)
    → encode8 ((u - 224) * 4096 + (u1 - 128) * 64 + (u2 - 128)) ≡ some (u ∷ u1 ∷ u2 ∷ [])
unfolding encode8
encode_three u u1 u2 h k b b' d d' m = ground arith

finish_three :
    (u : ℕ) (us : List ℕ)
    → 224 ≤ u
    → u < 240
    → AllBytes us
    → Encodes (u ∷ us) (finish 3 3 (trail 2 us u false))
unfolding finish trail
finish_three u [] h k b c e = absurd (ground arith)
finish_three u (u1 ∷ []) h k b c e = absurd (ground arith)
finish_three u (u1 ∷ u2 ∷ us) h k b c e =
    let low : 128 ≤ u1 = ground (arith, b.0, b.1.0) in
    let high : u1 < 192 = ground (arith, b.0, b.1.0) in
    let low' : 128 ≤ u2 = ground (arith, b.0, b.1.0) in
    let high' : u2 < 192 = ground (arith, b.0, b.1.0) in
    let value : c ≡ (u - 224) * 4096 + (u1 - 128) * 64 + (u2 - 128) = ground (arith, b.0, b.1.0) in
    let least : 2048 ≤ c = ground (arith, b.0, b.1.0) in
    let count : (finish 3 3 (trail 2 (u1 ∷ u2 ∷ us) u false)).1 ≡ 3 = ground (arith, b.0, b.1.0) in
    ap encode8 value
    ∙ encode_three u u1 u2 h k low high low' high' (omega (arith, value, least))
    ∙ ap (λ i. some (take i (u ∷ u1 ∷ u2 ∷ us))) (sym count)

encode_four :
    (u u1 u2 u3 : ℕ)
    → 240 ≤ u
    → u < 248
    → 128 ≤ u1
    → u1 < 192
    → 128 ≤ u2
    → u2 < 192
    → 128 ≤ u3
    → u3 < 192
    → 65536 ≤ (u - 240) * 262144 + (u1 - 128) * 4096 + (u2 - 128) * 64 + (u3 - 128)
    → (u - 240) * 262144 + (u1 - 128) * 4096 + (u2 - 128) * 64 + (u3 - 128) ≤ 1114111
    → encode8 ((u - 240) * 262144 + (u1 - 128) * 4096 + (u2 - 128) * 64 + (u3 - 128))
      ≡ some (u ∷ u1 ∷ u2 ∷ u3 ∷ [])
unfolding encode8
encode_four u u1 u2 u3 h k b b' d d' f f' m n = ground arith

finish_four :
    (u : ℕ) (us : List ℕ)
    → 240 ≤ u
    → u < 248
    → AllBytes us
    → Encodes (u ∷ us) (finish 4 4 (trail 3 us u false))
unfolding finish trail
finish_four u [] h k b c e = absurd (ground arith)
finish_four u (u1 ∷ []) h k b c e = absurd (ground arith)
finish_four u (u1 ∷ u2 ∷ []) h k b c e = absurd (ground arith)
finish_four u (u1 ∷ u2 ∷ u3 ∷ us) h k b c e =
    let b1 = b.0 in
    let b2 = b.1.0 in
    let b3 = b.1.1.0 in
    let low : 128 ≤ u1 = ground (arith, b1, b2, b3) in
    let high : u1 < 192 = ground (arith, b1, b2, b3) in
    let low' : 128 ≤ u2 = ground (arith, b1, b2, b3) in
    let high' : u2 < 192 = ground (arith, b1, b2, b3) in
    let low'' : 128 ≤ u3 = ground (arith, b1, b2, b3) in
    let high'' : u3 < 192 = ground (arith, b1, b2, b3) in
    let value : c ≡ (u - 240) * 262144 + (u1 - 128) * 4096 + (u2 - 128) * 64 + (u3 - 128) =
      ground (arith, b1, b2, b3) in
    let least : 65536 ≤ c = ground (arith, b1, b2, b3) in
    let most : c ≤ 1114111 = ground (arith, b1, b2, b3) in
    let count : (finish 4 4 (trail 3 (u1 ∷ u2 ∷ u3 ∷ us) u false)).1 ≡ 4 =
      ground (arith, b1, b2, b3) in
    ap encode8 value
    ∙ encode_four u u1 u2 u3 h k low high low' high' low'' high'' (omega (arith, value, least))
        (omega (arith, value, most))
    ∙ ap (λ i. some (take i (u ∷ u1 ∷ u2 ∷ u3 ∷ us))) (sym count)

-- No lead byte has no trail count, and no code point takes five bytes or six.
finish_uneven : (n i : ℕ) (r : Option (ℕ × Bool)) → (i == n) ≡ false → (finish n i r).0 ≡ none
unfolding finish
finish_uneven n i none h = refl
finish_uneven n i (some (sum, bad)) h = ground arith

finish_long : (n : ℕ) (r : Option (ℕ × Bool)) → 5 ≤ n → (finish n n r).0 ≡ none
unfolding finish
finish_long n none h = refl
finish_long n (some (sum, bad)) h = ground arith

refused : (us : List ℕ) (r : Option ℕ × ℕ) → r.0 ≡ none → Encodes us r
refused us r h c e = absurd (cc (h, e))

abbrev Accepted : ℕ → List ℕ → ℕ → Type 0
Accepted u us t = Encodes (u ∷ us) (finish t (1 + (t - 1)) (trail (t - 1) us u false))

module _ (u : ℕ) (us : List ℕ) (b : AllBytes us) where
  of_count : (t : ℕ) → trail_bytes u ≡ t → Accepted u us t → Accepted u us (trail_bytes u)
  of_count t e h = subst (Accepted u us) (sym e) h

  accepted : 128 ≤ u → Accepted u us (trail_bytes u)
  accepted h = elim (Bool-cases (ltb u 192)) [
    | inl a ↦
        of_count 0 (ground arith) (refused (u ∷ us) _ (finish_uneven 0 1 (trail 0 us u false) refl))
    | inr a ↦ elim (Bool-cases (ltb u 224)) [
      | inl a' ↦ of_count 2 (ground arith) (finish_two u us (ground arith) (ground arith) b)
      | inr a' ↦ elim (Bool-cases (ltb u 240)) [
        | inl d ↦ of_count 3 (ground arith) (finish_three u us (ground arith) (ground arith) b)
        | inr d ↦ elim (Bool-cases (ltb u 248)) [
          | inl f ↦ of_count 4 (ground arith) (finish_four u us (ground arith) (ground arith) b)
          | inr f ↦ elim (Bool-cases (ltb u 252)) [
            | inl g ↦
                of_count 5 (ground arith)
                  (refused (u ∷ us) _ (finish_long 5 (trail 4 us u false) (omega arith)))
            | inr g ↦ elim (Bool-cases (ltb u 254)) [
              | inl k ↦
                  of_count 6 (ground arith)
                    (refused (u ∷ us) _ (finish_long 6 (trail 5 us u false) (omega arith)))
              | inr k ↦
                  of_count 0 (ground arith)
                    (refused (u ∷ us) _ (finish_uneven 0 1 (trail 0 us u false) refl))
            ]
          ]
        ]
      ]
    ]
  ]

small : (u : ℕ) → u < 128 → encode8 u ≡ some (u ∷ [])
unfolding encode8
small u h = ground arith

decode_long :
    (u : ℕ) (us : List ℕ)
    → leb 128 u ≡ true
    → decode8 (u ∷ us)
      ≡ some
          (finish (trail_bytes u) (1 + (trail_bytes u - 1)) (trail (trail_bytes u - 1) us u false))
unfolding decode8
decode_long u us a = rw a refl

decode_short : (u : ℕ) (us : List ℕ) → leb 128 u ≡ false → decode8 (u ∷ us) ≡ some (some u, 1)
unfolding decode8
decode_short u us a = rw a refl

-- Whatever bytes Utf8::Decode accepts, the bytes it read are the ones that Utf8::Encode writes
-- for the code point it gives: it accepts no overlong form and nothing out of range.
pub encode8-decode8 :
    (us : List ℕ) (ch n : ℕ)
    → AllBytes us
    → decode8 us ≡ some (some ch, n)
    → encode8 ch ≡ some (take n us)
unfolding decode8
encode8-decode8 [] ch n b h = absurd (ground arith)
encode8-decode8 (u ∷ us) ch n b h = elim (Bool-cases (leb 128 u)) [
  | inl a ↦
      let t = trail_bytes u in
      let r = finish t (1 + (t - 1)) (trail (t - 1) us u false) in
      let same : r ≡ (some ch, n) = cc (decode_long u us a, h) in
      accepted u us b.1 (leb→le 128 u a) ch (ap (λ p. p.0) same)
      ∙ ap (λ p. some (take p.1 (u ∷ us))) same
  | inr a ↦
      let same : Path (Option ℕ × ℕ) (some u, 1) (some ch, n) = cc (decode_short u us a, h) in
      let it : u ≡ ch = cc same in
      let one : 1 ≡ n = cc same in
      ap encode8 (sym it) ∙ small u (ground arith) ∙ ap (λ i. some (take i (u ∷ us))) one
]
