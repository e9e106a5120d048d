-- ===== src/Natives/Mint/Valid.antt =====
-- The ranges of what the natives of large integers answer.
use dartino_sdk.Base.{
  true, false, if◌then◌else◌, none, ◌+◌, ◌^◌, sym, subst, Bool, not, ◌||◌, Option, leb,
}
use Prim.Native.Nat.{bit_and, bit_or, bit_xor}
use dartino_sdk.Int.{
  ℤ, pos, negsuc, ◌+ℤ◌, ◌-ℤ◌, ◌*ℤ◌, wrap, to_word, of_word, eqb_ℤ, InWord, in_word,
}
use dartino_sdk.Natives.{Object, Failure, Result, as_large_integer, need_large_integer, to_integer}
use dartino_sdk.Natives.Mint.{
  mint_negate, mint_add, mint_sub, mint_mul, mint_mod, mint_trunc_div, mint_bit_not, mint_bit_and,
  mint_bit_or, mint_bit_xor, mint_bit_shr, mint_bit_shl, mint_equal, mint_less, mint_less_equal,
  mint_greater, mint_greater_equal, int64_min,
}
use dartino_sdk.Natives.Bits.{bit_length, signed_64_bit_mul_might_overflow}
use dartino_sdk.Natives.Mint.Sums.{WordOr, mint_add_lem, mint_sub_lem}
use dartino_sdk.Natives.Mint.Products.{in_word-InWord}
use dartino_sdk.Natives.Ranges.{
  ValidObject, ValidResult, either-Valid, to_bool-Valid, new_integer-Valid, to_integer-Valid,
  of_word-InWord,
}
use dartino_sdk.Natives.Mint.Words.{
  nonzero, modulo-InWord, trunc_div-InWord, bit_not-InWord, negated-InWord, shifted-InWord,
}

as_large_integer-Valid :
    (x : Object) (f : ℤ → Option Result)
    → ValidObject x
    → ((v : ℤ) → InWord v → ValidResult (f v))
    → ValidResult (as_large_integer x f)
as_large_integer-Valid (Object.large_integer v) f h k = k v h
as_large_integer-Valid _ f h k = tt

need_large_integer-Valid :
    (x : Object) (f : ℤ → Option Result)
    → ValidObject x
    → ((v : ℤ) → InWord v → ValidResult (f v))
    → ValidResult (need_large_integer x f)
need_large_integer-Valid (Object.large_integer v) f h k = k v h
need_large_integer-Valid _ f h k = tt

WordOr-Valid :
    (room : Bool) (f : Failure) (v : ℤ) (r : Option Result) → WordOr room f v r → ValidResult r
WordOr-Valid room f v r e = subst ValidResult (sym e) (
    either-Valid (in_word v) (to_integer room v) (Result.failure f)
      (λ d. to_integer-Valid room v (in_word-InWord v d)) (λ d. tt))

pub mint_negate-Valid :
    (room : Bool) (x : Object) → ValidObject x → ValidResult (mint_negate room x)
unfolding mint_negate
mint_negate-Valid room x h = as_large_integer-Valid x _ h λ v k.
    either-Valid (eqb_ℤ v int64_min) _ _ (λ e. tt)
      (λ e. new_integer-Valid room _ (negated-InWord v k e))

pub mint_add-Valid :
    (room : Bool) (x y : Object) → ValidObject x → ValidObject y → ValidResult (mint_add room x y)
unfolding mint_add
mint_add-Valid room x y h h' = as_large_integer-Valid x _ h λ v k.
    need_large_integer-Valid y _ h'
      λ w k'. WordOr-Valid room Failure.index_out_of_bounds (v +ℤ w) _ (mint_add_lem room v w k k')

pub mint_sub-Valid :
    (room : Bool) (x y : Object) → ValidObject x → ValidObject y → ValidResult (mint_sub room x y)
unfolding mint_sub
mint_sub-Valid room x y h h' = as_large_integer-Valid x _ h λ v k.
    need_large_integer-Valid y _ h'
      λ w k'. WordOr-Valid room Failure.index_out_of_bounds (v -ℤ w) _ (mint_sub_lem room v w k k')

pub mint_mul-Valid :
    (room : Bool) (x y : Object) → ValidObject x → ValidObject y → ValidResult (mint_mul room x y)
unfolding mint_mul
mint_mul-Valid room x y h h' = as_large_integer-Valid x _ h λ v k.
    need_large_integer-Valid y _ h' λ w k'.
      either-Valid (signed_64_bit_mul_might_overflow v w) _ _ (λ e. tt)
        (λ e. to_integer-Valid room (wrap (v *ℤ w)) (of_word-InWord (to_word (v *ℤ w))))

pub mint_mod-Valid :
    (room : Bool) (x y : Object) → ValidObject x → ValidObject y → ValidResult (mint_mod room x y)
unfolding mint_mod
mint_mod-Valid room x y h h' = as_large_integer-Valid x _ h λ v k.
    need_large_integer-Valid y _ h' λ w k'.
      either-Valid (eqb_ℤ w (pos 0)) _ _ (λ e. tt)
        (λ e.
          either-Valid (not (eqb_ℤ v int64_min) || not (eqb_ℤ w (negsuc 0))) _ _
            (λ d. to_integer-Valid room _ (modulo-InWord v w k' (nonzero w e))) (λ d. tt))

pub mint_trunc_div-Valid :
    (room : Bool) (x y : Object)
    → ValidObject x
    → ValidObject y
    → ValidResult (mint_trunc_div room x y)
unfolding mint_trunc_div
mint_trunc_div-Valid room x y h h' = as_large_integer-Valid x _ h λ v k.
    need_large_integer-Valid y _ h' λ w k'.
      either-Valid (eqb_ℤ w (pos 0)) _ _ (λ e. tt)
        (λ e.
          either-Valid (not (eqb_ℤ v int64_min) || not (eqb_ℤ w (negsuc 0))) _ _
            (λ d. to_integer-Valid room _ (trunc_div-InWord v w k d)) (λ d. tt))

pub mint_bit_not-Valid :
    (room : Bool) (x : Object) → ValidObject x → ValidResult (mint_bit_not room x)
unfolding mint_bit_not
mint_bit_not-Valid room x h =
    as_large_integer-Valid x _ h λ v k. new_integer-Valid room _ (bit_not-InWord v k)

pub mint_bit_and-Valid :
    (room : Bool) (x y : Object)
    → ValidObject x
    → ValidObject y
    → ValidResult (mint_bit_and room x y)
unfolding mint_bit_and
mint_bit_and-Valid room x y h h' = as_large_integer-Valid x _ h λ v k.
    need_large_integer-Valid y _ h' λ w k'.
      to_integer-Valid room (of_word (bit_and (to_word v) (to_word w)))
        (of_word-InWord (bit_and (to_word v) (to_word w)))

pub mint_bit_or-Valid :
    (room : Bool) (x y : Object)
    → ValidObject x
    → ValidObject y
    → ValidResult (mint_bit_or room x y)
unfolding mint_bit_or
mint_bit_or-Valid room x y h h' = as_large_integer-Valid x _ h λ v k.
    need_large_integer-Valid y _ h' λ w k'.
      to_integer-Valid room (of_word (bit_or (to_word v) (to_word w)))
        (of_word-InWord (bit_or (to_word v) (to_word w)))

pub mint_bit_xor-Valid :
    (room : Bool) (x y : Object)
    → ValidObject x
    → ValidObject y
    → ValidResult (mint_bit_xor room x y)
unfolding mint_bit_xor
mint_bit_xor-Valid room x y h h' = as_large_integer-Valid x _ h λ v k.
    need_large_integer-Valid y _ h' λ w k'.
      to_integer-Valid room (of_word (bit_xor (to_word v) (to_word w)))
        (of_word-InWord (bit_xor (to_word v) (to_word w)))

shr_body :
    (room : Bool) (v w : ℤ)
    → InWord v
    → ValidResult (mint_bit_shr room (Object.large_integer v) (Object.large_integer w))
unfolding mint_bit_shr
shr_body room v (pos n) h = to_integer-Valid room _ (shifted-InWord v n h)
shr_body room v (negsuc n) h = tt

undefined-Valid :
    (b : Bool) (r : Option Result) → ValidResult r → ValidResult (if b then none else r)
undefined-Valid true r h = tt
undefined-Valid false r h = h

shl_body :
    (room : Bool) (v w : ℤ)
    → ValidResult (mint_bit_shl room (Object.large_integer v) (Object.large_integer w))
unfolding mint_bit_shl
shl_body room v (pos n) = undefined-Valid (leb (2 ^ 63) (bit_length v + n)) _ (
    either-Valid (leb 64 (bit_length v + n)) _ _ (λ e. tt)
      (λ e.
        to_integer-Valid room (wrap (v *ℤ pos (2 ^ n)))
          (of_word-InWord (to_word (v *ℤ pos (2 ^ n))))))
shl_body room v (negsuc n) = tt

pub mint_bit_shr-Valid :
    (room : Bool) (x y : Object)
    → ValidObject x
    → ValidObject y
    → ValidResult (mint_bit_shr room x y)
unfolding mint_bit_shr
mint_bit_shr-Valid room x y h h' =
    as_large_integer-Valid x _ h λ v k. need_large_integer-Valid y _ h' λ w k'. shr_body room v w k

pub mint_bit_shl-Valid :
    (room : Bool) (x y : Object)
    → ValidObject x
    → ValidObject y
    → ValidResult (mint_bit_shl room x y)
unfolding mint_bit_shl
mint_bit_shl-Valid room x y h h' =
    as_large_integer-Valid x _ h λ v k. need_large_integer-Valid y _ h' λ w k'. shl_body room v w

pub mint_equal-Valid : (x y : Object) → ValidObject x → ValidObject y → ValidResult (mint_equal x y)
unfolding mint_equal
mint_equal-Valid x y h h' =
    as_large_integer-Valid x _ h λ v k. need_large_integer-Valid y _ h' λ w k'. to_bool-Valid _

pub mint_less-Valid : (x y : Object) → ValidObject x → ValidObject y → ValidResult (mint_less x y)
unfolding mint_less
mint_less-Valid x y h h' =
    as_large_integer-Valid x _ h λ v k. need_large_integer-Valid y _ h' λ w k'. to_bool-Valid _

pub mint_less_equal-Valid :
    (x y : Object) → ValidObject x → ValidObject y → ValidResult (mint_less_equal x y)
unfolding mint_less_equal
mint_less_equal-Valid x y h h' =
    as_large_integer-Valid x _ h λ v k. need_large_integer-Valid y _ h' λ w k'. to_bool-Valid _

pub mint_greater-Valid :
    (x y : Object) → ValidObject x → ValidObject y → ValidResult (mint_greater x y)
unfolding mint_greater
mint_greater-Valid x y h h' =
    as_large_integer-Valid x _ h λ v k. need_large_integer-Valid y _ h' λ w k'. to_bool-Valid _

pub mint_greater_equal-Valid :
    (x y : Object) → ValidObject x → ValidObject y → ValidResult (mint_greater_equal x y)
unfolding mint_greater_equal
mint_greater_equal-Valid x y h h' =
    as_large_integer-Valid x _ h λ v k. need_large_integer-Valid y _ h' λ w k'. to_bool-Valid _
