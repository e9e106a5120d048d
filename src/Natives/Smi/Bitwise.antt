-- ===== src/Natives/Smi/Bitwise.antt =====
-- SmiBitAnd, SmiBitOr and SmiBitXor make Smis: the two highest bits of a Smi's word are the same.
use dartino_sdk.Base.{ℕ, ◌/◌, ◌^◌, ◌≡◌, ◌⊎◌, subst, sym, ap₂, true, arith, inl, inr}
use Prim.Native.Nat.{bit_and, bit_or, bit_xor}
use dartino_sdk.Int.{ℤ, pos, negsuc, to_word, of_word}
use dartino_sdk.Natives.{is_valid}
use dartino_sdk.Natives.Bits.Digits.{bit_and_above, bit_or_above, bit_xor_above}

-- The two highest bits of a word that is a Smi's.
abbrev Same : ℕ → Type 0
Same top = (top ≡ 0) ⊎ (top ≡ 3)

top-Same : (x : ℤ) → is_valid x ≡ true → Same (to_word x / 2 ^ 62)
top-Same (pos n) h = inl (ground arith)
top-Same (negsuc n) h = inr (ground arith)

of_word-is_valid : (w : ℕ) → Same (w / 2 ^ 62) → is_valid (of_word w) ≡ true
of_word-is_valid w (inl e) = ground arith
of_word-is_valid w (inr e) = ground arith

module _ (op : ℕ → ℕ → ℕ) (above : (a b : ℕ) → op a b / 2 ^ 62 ≡ op (a / 2 ^ 62) (b / 2 ^ 62))
    (closed : (a b : ℕ) → Same a → Same b → Same (op a b)) where
  bitwise_valid :
      (x y : ℤ)
      → is_valid x ≡ true
      → is_valid y ≡ true
      → is_valid (of_word (op (to_word x) (to_word y))) ≡ true
  bitwise_valid x y h k =
      of_word-is_valid _ (
        subst Same (sym (above (to_word x) (to_word y))) (closed _ _ (top-Same x h) (top-Same y k)))

and_closed : (a b : ℕ) → Same a → Same b → Same (bit_and a b)
and_closed a b (inl e) (inl f) = inl (ap₂ bit_and e f)
and_closed a b (inl e) (inr f) = inl (ap₂ bit_and e f)
and_closed a b (inr e) (inl f) = inl (ap₂ bit_and e f)
and_closed a b (inr e) (inr f) = inr (ap₂ bit_and e f)

or_closed : (a b : ℕ) → Same a → Same b → Same (bit_or a b)
or_closed a b (inl e) (inl f) = inl (ap₂ bit_or e f)
or_closed a b (inl e) (inr f) = inr (ap₂ bit_or e f)
or_closed a b (inr e) (inl f) = inr (ap₂ bit_or e f)
or_closed a b (inr e) (inr f) = inr (ap₂ bit_or e f)

xor_closed : (a b : ℕ) → Same a → Same b → Same (bit_xor a b)
xor_closed a b (inl e) (inl f) = inl (ap₂ bit_xor e f)
xor_closed a b (inl e) (inr f) = inr (ap₂ bit_xor e f)
xor_closed a b (inr e) (inl f) = inr (ap₂ bit_xor e f)
xor_closed a b (inr e) (inr f) = inl (ap₂ bit_xor e f)

module _ (x y : ℤ) (h : is_valid x ≡ true) (k : is_valid y ≡ true) where
  pub bit_and_valid : is_valid (of_word (bit_and (to_word x) (to_word y))) ≡ true
  bit_and_valid = bitwise_valid bit_and (bit_and_above 62) and_closed x y h k

  pub bit_or_valid : is_valid (of_word (bit_or (to_word x) (to_word y))) ≡ true
  bit_or_valid = bitwise_valid bit_or (bit_or_above 62) or_closed x y h k

  pub bit_xor_valid : is_valid (of_word (bit_xor (to_word x) (to_word y))) ≡ true
  bit_xor_valid = bitwise_valid bit_xor (bit_xor_above 62) xor_closed x y h k
