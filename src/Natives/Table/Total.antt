-- ===== src/Natives/Table/Total.antt =====
-- A call by the table that suits the native has a valid answer.
use dartino_sdk.Base.{Bool, true, false, ◌&&◌, ◌≡◌, subst, Option, some, List, [], ◌∷◌, arith}
use dartino_sdk.Natives.{Object, Result}
use dartino_sdk.Natives.Names.{ArithmeticNative}
use dartino_sdk.Natives.Ranges.{AllValid, ValidObject, ValidResult}
use dartino_sdk.Natives.Total.{Answers, is_smi, is_large_integer, is_double, is_count}
use dartino_sdk.Natives.Doubles.{Floats}
use dartino_sdk.Natives.Table.{call, unary, binary}
use dartino_sdk.Natives.Table.Calls.{call-Valid}
use dartino_sdk.Natives.Smi.Total.{
  smi_to_mint-Answers, smi_negate-Answers, smi_add-Answers, smi_sub-Answers, smi_mul-Answers,
  smi_mod-Answers, smi_trunc_div-Answers, smi_bit_not-Answers, smi_bit_and-Answers,
  smi_bit_or-Answers, smi_bit_xor-Answers, smi_bit_shr-Answers, smi_bit_shl-Answers,
  smi_equal-Answers, smi_less-Answers, smi_less_equal-Answers, smi_greater-Answers,
  smi_greater_equal-Answers,
}
use dartino_sdk.Natives.Mint.Total.{
  mint_negate-Answers, mint_add-Answers, mint_sub-Answers, mint_mul-Answers, mint_mod-Answers,
  mint_trunc_div-Answers, mint_bit_not-Answers, mint_bit_and-Answers, mint_bit_or-Answers,
  mint_bit_xor-Answers, mint_bit_shr-Answers, mint_bit_shl-Answers, mint_equal-Answers,
  mint_less-Answers, mint_less_equal-Answers, mint_greater-Answers, mint_greater_equal-Answers,
}
use dartino_sdk.Natives.Doubles.Total.{
  smi_to_double-Answers, smi_div-Answers, mint_to_double-Answers, mint_div-Answers,
  double_negate-Answers, double_add-Answers, double_sub-Answers, double_mul-Answers,
  double_mod-Answers, double_div-Answers, double_equal-Answers, double_less-Answers,
  double_less_equal-Answers, double_greater-Answers, double_greater_equal-Answers,
  double_is_nan-Answers, double_is_negative-Answers, double_ceil_to_double-Answers,
  double_round_to_double-Answers, double_floor_to_double-Answers, double_truncate_to_double-Answers,
  double_remainder-Answers, double_sin-Answers, double_cos-Answers, double_tan-Answers,
  double_acos-Answers, double_asin-Answers, double_atan-Answers, double_sqrt-Answers,
  double_exp-Answers, double_log-Answers, double_atan2-Answers, double_pow-Answers,
}

abbrev pub has_one : (Object → Bool) → List Object → Bool
has_one p (x ∷ _) = p x
has_one p [] = false

abbrev pub has_two : (Object → Object → Bool) → List Object → Bool
has_two p (x ∷ y ∷ _) = p x y
has_two p _ = false

-- A receiver of the native's class, enough arguments, and a count of a shift as in is_count; the casts of
-- doubles to integers are left out.
unfoldable pub suits : ArithmeticNative → List Object → Bool
suits ArithmeticNative.smi_to_double xs = has_one is_smi xs
suits ArithmeticNative.smi_to_mint xs = has_one is_smi xs
suits ArithmeticNative.smi_negate xs = has_one is_smi xs
suits ArithmeticNative.smi_add xs = has_two (λ x y. is_smi x) xs
suits ArithmeticNative.smi_sub xs = has_two (λ x y. is_smi x) xs
suits ArithmeticNative.smi_mul xs = has_two (λ x y. is_smi x) xs
suits ArithmeticNative.smi_mod xs = has_two (λ x y. is_smi x) xs
suits ArithmeticNative.smi_div xs = has_two (λ x y. is_smi x) xs
suits ArithmeticNative.smi_trunc_div xs = has_two (λ x y. is_smi x) xs
suits ArithmeticNative.smi_bit_not xs = has_one is_smi xs
suits ArithmeticNative.smi_bit_and xs = has_two (λ x y. is_smi x) xs
suits ArithmeticNative.smi_bit_or xs = has_two (λ x y. is_smi x) xs
suits ArithmeticNative.smi_bit_xor xs = has_two (λ x y. is_smi x) xs
suits ArithmeticNative.smi_bit_shr xs = has_two (λ x y. is_smi x && is_count y) xs
suits ArithmeticNative.smi_bit_shl xs = has_two (λ x y. is_smi x && is_count y) xs
suits ArithmeticNative.smi_equal xs = has_two (λ x y. is_smi x) xs
suits ArithmeticNative.smi_less xs = has_two (λ x y. is_smi x) xs
suits ArithmeticNative.smi_less_equal xs = has_two (λ x y. is_smi x) xs
suits ArithmeticNative.smi_greater xs = has_two (λ x y. is_smi x) xs
suits ArithmeticNative.smi_greater_equal xs = has_two (λ x y. is_smi x) xs
suits ArithmeticNative.mint_to_double xs = has_one is_large_integer xs
suits ArithmeticNative.mint_negate xs = has_one is_large_integer xs
suits ArithmeticNative.mint_add xs = has_two (λ x y. is_large_integer x) xs
suits ArithmeticNative.mint_sub xs = has_two (λ x y. is_large_integer x) xs
suits ArithmeticNative.mint_mul xs = has_two (λ x y. is_large_integer x) xs
suits ArithmeticNative.mint_mod xs = has_two (λ x y. is_large_integer x) xs
suits ArithmeticNative.mint_div xs = has_two (λ x y. is_large_integer x) xs
suits ArithmeticNative.mint_trunc_div xs = has_two (λ x y. is_large_integer x) xs
suits ArithmeticNative.mint_bit_not xs = has_one is_large_integer xs
suits ArithmeticNative.mint_bit_and xs = has_two (λ x y. is_large_integer x) xs
suits ArithmeticNative.mint_bit_or xs = has_two (λ x y. is_large_integer x) xs
suits ArithmeticNative.mint_bit_xor xs = has_two (λ x y. is_large_integer x) xs
suits ArithmeticNative.mint_bit_shr xs = has_two (λ x y. is_large_integer x && is_count y) xs
suits ArithmeticNative.mint_bit_shl xs = has_two (λ x y. is_large_integer x && is_count y) xs
suits ArithmeticNative.mint_equal xs = has_two (λ x y. is_large_integer x) xs
suits ArithmeticNative.mint_less xs = has_two (λ x y. is_large_integer x) xs
suits ArithmeticNative.mint_less_equal xs = has_two (λ x y. is_large_integer x) xs
suits ArithmeticNative.mint_greater xs = has_two (λ x y. is_large_integer x) xs
suits ArithmeticNative.mint_greater_equal xs = has_two (λ x y. is_large_integer x) xs
suits ArithmeticNative.double_negate xs = has_one is_double xs
suits ArithmeticNative.double_add xs = has_two (λ x y. is_double x) xs
suits ArithmeticNative.double_sub xs = has_two (λ x y. is_double x) xs
suits ArithmeticNative.double_mul xs = has_two (λ x y. is_double x) xs
suits ArithmeticNative.double_mod xs = has_two (λ x y. is_double x) xs
suits ArithmeticNative.double_div xs = has_two (λ x y. is_double x) xs
suits ArithmeticNative.double_trunc_div xs = false
suits ArithmeticNative.double_equal xs = has_two (λ x y. is_double x) xs
suits ArithmeticNative.double_less xs = has_two (λ x y. is_double x) xs
suits ArithmeticNative.double_less_equal xs = has_two (λ x y. is_double x) xs
suits ArithmeticNative.double_greater xs = has_two (λ x y. is_double x) xs
suits ArithmeticNative.double_greater_equal xs = has_two (λ x y. is_double x) xs
suits ArithmeticNative.double_is_nan xs = has_one is_double xs
suits ArithmeticNative.double_is_negative xs = has_one is_double xs
suits ArithmeticNative.double_ceil xs = false
suits ArithmeticNative.double_ceil_to_double xs = has_one is_double xs
suits ArithmeticNative.double_round xs = false
suits ArithmeticNative.double_round_to_double xs = has_one is_double xs
suits ArithmeticNative.double_floor xs = false
suits ArithmeticNative.double_floor_to_double xs = has_one is_double xs
suits ArithmeticNative.double_truncate xs = false
suits ArithmeticNative.double_truncate_to_double xs = has_one is_double xs
suits ArithmeticNative.double_remainder xs = has_two (λ x y. is_double x) xs
suits ArithmeticNative.double_to_int xs = false
suits ArithmeticNative.double_sin xs = has_one (λ x. true) xs
suits ArithmeticNative.double_cos xs = has_one (λ x. true) xs
suits ArithmeticNative.double_tan xs = has_one (λ x. true) xs
suits ArithmeticNative.double_acos xs = has_one (λ x. true) xs
suits ArithmeticNative.double_asin xs = has_one (λ x. true) xs
suits ArithmeticNative.double_atan xs = has_one (λ x. true) xs
suits ArithmeticNative.double_sqrt xs = has_one (λ x. true) xs
suits ArithmeticNative.double_exp xs = has_one (λ x. true) xs
suits ArithmeticNative.double_log xs = has_one (λ x. true) xs
suits ArithmeticNative.double_atan2 xs = has_two (λ x y. true) xs
suits ArithmeticNative.double_pow xs = has_two (λ x y. true) xs

left_true : (a b : Bool) → (a && b) ≡ true → a ≡ true
left_true a b h = ground arith

right_true : (a b : Bool) → (a && b) ≡ true → b ≡ true
right_true a b h = ground arith

one-Answers :
    (f : Object → Option Result) (p : Object → Bool) (xs : List Object)
    → has_one p xs ≡ true
    → ((x : Object) → p x ≡ true → Answers (f x))
    → Answers (unary f xs)
one-Answers f p [] h k = absurd (ground arith)
one-Answers f p (x ∷ xs) h k = k x h

two-Answers :
    (f : Object → Object → Option Result) (p : Object → Object → Bool) (xs : List Object)
    → has_two p xs ≡ true
    → ((x y : Object) → p x y ≡ true → Answers (f x y))
    → Answers (binary f xs)
two-Answers f p [] h k = absurd (ground arith)
two-Answers f p (x ∷ []) h k = absurd (ground arith)
two-Answers f p (x ∷ y ∷ xs) h k = k x y h

one_valid-Answers :
    (f : Object → Option Result) (p : Object → Bool) (xs : List Object)
    → AllValid xs
    → has_one p xs ≡ true
    → ((x : Object) → ValidObject x → p x ≡ true → Answers (f x))
    → Answers (unary f xs)
one_valid-Answers f p [] valid h k = absurd (ground arith)
one_valid-Answers f p (x ∷ xs) valid h k = k x valid.0 h

two_valid-Answers :
    (f : Object → Object → Option Result) (p : Object → Object → Bool) (xs : List Object)
    → AllValid xs
    → has_two p xs ≡ true
    → ((x y : Object) → ValidObject x → ValidObject y → p x y ≡ true → Answers (f x y))
    → Answers (binary f xs)
two_valid-Answers f p [] valid h k = absurd (ground arith)
two_valid-Answers f p (x ∷ []) valid h k = absurd (ground arith)
two_valid-Answers f p (x ∷ y ∷ xs) valid h k = k x y valid.0 valid.1.0 h

call-Answers :
    (floats : Floats) (room : Bool) (native : ArithmeticNative) (arguments : List Object)
    → AllValid arguments
    → suits native arguments ≡ true
    → Answers (call floats room native arguments)
unfolding call suits
call-Answers floats room ArithmeticNative.smi_to_double xs valid h =
    one-Answers _ is_smi xs h (λ x h. smi_to_double-Answers floats room x h)
call-Answers floats room ArithmeticNative.smi_to_mint xs valid h =
    one-Answers _ is_smi xs h (λ x h. smi_to_mint-Answers room x h)
call-Answers floats room ArithmeticNative.smi_negate xs valid h =
    one_valid-Answers _ is_smi xs valid h (λ x v h. smi_negate-Answers x h v)
call-Answers floats room ArithmeticNative.smi_add xs valid h =
    two-Answers _ (λ x y. is_smi x) xs h (λ x y h. smi_add-Answers x y h)
call-Answers floats room ArithmeticNative.smi_sub xs valid h =
    two-Answers _ (λ x y. is_smi x) xs h (λ x y h. smi_sub-Answers x y h)
call-Answers floats room ArithmeticNative.smi_mul xs valid h =
    two-Answers _ (λ x y. is_smi x) xs h (λ x y h. smi_mul-Answers x y h)
call-Answers floats room ArithmeticNative.smi_mod xs valid h =
    two_valid-Answers _ (λ x y. is_smi x) xs valid h (λ x y v w h. smi_mod-Answers x y h v w)
call-Answers floats room ArithmeticNative.smi_div xs valid h =
    two-Answers _ (λ x y. is_smi x) xs h (λ x y h. smi_div-Answers floats room x y h)
call-Answers floats room ArithmeticNative.smi_trunc_div xs valid h =
    two-Answers _ (λ x y. is_smi x) xs h (λ x y h. smi_trunc_div-Answers x y h)
call-Answers floats room ArithmeticNative.smi_bit_not xs valid h =
    one_valid-Answers _ is_smi xs valid h (λ x v h. smi_bit_not-Answers x h v)
call-Answers floats room ArithmeticNative.smi_bit_and xs valid h =
    two_valid-Answers _ (λ x y. is_smi x) xs valid h (λ x y v w h. smi_bit_and-Answers x y h v w)
call-Answers floats room ArithmeticNative.smi_bit_or xs valid h =
    two_valid-Answers _ (λ x y. is_smi x) xs valid h (λ x y v w h. smi_bit_or-Answers x y h v w)
call-Answers floats room ArithmeticNative.smi_bit_xor xs valid h =
    two_valid-Answers _ (λ x y. is_smi x) xs valid h (λ x y v w h. smi_bit_xor-Answers x y h v w)
call-Answers floats room ArithmeticNative.smi_bit_shr xs valid h =
    two_valid-Answers _ (λ x y. is_smi x && is_count y) xs valid h
      (λ x y v w h.
        smi_bit_shr-Answers x y (left_true (is_smi x) (is_count y) h) v
          (right_true (is_smi x) (is_count y) h))
call-Answers floats room ArithmeticNative.smi_bit_shl xs valid h =
    two-Answers _ (λ x y. is_smi x && is_count y) xs h
      (λ x y h.
        smi_bit_shl-Answers x y (left_true (is_smi x) (is_count y) h)
          (right_true (is_smi x) (is_count y) h))
call-Answers floats room ArithmeticNative.smi_equal xs valid h =
    two-Answers _ (λ x y. is_smi x) xs h (λ x y h. smi_equal-Answers x y h)
call-Answers floats room ArithmeticNative.smi_less xs valid h =
    two-Answers _ (λ x y. is_smi x) xs h (λ x y h. smi_less-Answers x y h)
call-Answers floats room ArithmeticNative.smi_less_equal xs valid h =
    two-Answers _ (λ x y. is_smi x) xs h (λ x y h. smi_less_equal-Answers x y h)
call-Answers floats room ArithmeticNative.smi_greater xs valid h =
    two-Answers _ (λ x y. is_smi x) xs h (λ x y h. smi_greater-Answers x y h)
call-Answers floats room ArithmeticNative.smi_greater_equal xs valid h =
    two-Answers _ (λ x y. is_smi x) xs h (λ x y h. smi_greater_equal-Answers x y h)
call-Answers floats room ArithmeticNative.mint_to_double xs valid h =
    one-Answers _ is_large_integer xs h (λ x h. mint_to_double-Answers floats room x h)
call-Answers floats room ArithmeticNative.mint_negate xs valid h =
    one-Answers _ is_large_integer xs h (λ x h. mint_negate-Answers room x h)
call-Answers floats room ArithmeticNative.mint_add xs valid h =
    two-Answers _ (λ x y. is_large_integer x) xs h (λ x y h. mint_add-Answers room x y h)
call-Answers floats room ArithmeticNative.mint_sub xs valid h =
    two-Answers _ (λ x y. is_large_integer x) xs h (λ x y h. mint_sub-Answers room x y h)
call-Answers floats room ArithmeticNative.mint_mul xs valid h =
    two-Answers _ (λ x y. is_large_integer x) xs h (λ x y h. mint_mul-Answers room x y h)
call-Answers floats room ArithmeticNative.mint_mod xs valid h =
    two-Answers _ (λ x y. is_large_integer x) xs h (λ x y h. mint_mod-Answers room x y h)
call-Answers floats room ArithmeticNative.mint_div xs valid h =
    two-Answers _ (λ x y. is_large_integer x) xs h (λ x y h. mint_div-Answers floats room x y h)
call-Answers floats room ArithmeticNative.mint_trunc_div xs valid h =
    two-Answers _ (λ x y. is_large_integer x) xs h (λ x y h. mint_trunc_div-Answers room x y h)
call-Answers floats room ArithmeticNative.mint_bit_not xs valid h =
    one-Answers _ is_large_integer xs h (λ x h. mint_bit_not-Answers room x h)
call-Answers floats room ArithmeticNative.mint_bit_and xs valid h =
    two-Answers _ (λ x y. is_large_integer x) xs h (λ x y h. mint_bit_and-Answers room x y h)
call-Answers floats room ArithmeticNative.mint_bit_or xs valid h =
    two-Answers _ (λ x y. is_large_integer x) xs h (λ x y h. mint_bit_or-Answers room x y h)
call-Answers floats room ArithmeticNative.mint_bit_xor xs valid h =
    two-Answers _ (λ x y. is_large_integer x) xs h (λ x y h. mint_bit_xor-Answers room x y h)
call-Answers floats room ArithmeticNative.mint_bit_shr xs valid h =
    two-Answers _ (λ x y. is_large_integer x && is_count y) xs h
      (λ x y h.
        mint_bit_shr-Answers room x y (left_true (is_large_integer x) (is_count y) h)
          (right_true (is_large_integer x) (is_count y) h))
call-Answers floats room ArithmeticNative.mint_bit_shl xs valid h =
    two-Answers _ (λ x y. is_large_integer x && is_count y) xs h
      (λ x y h.
        mint_bit_shl-Answers room x y (left_true (is_large_integer x) (is_count y) h)
          (right_true (is_large_integer x) (is_count y) h))
call-Answers floats room ArithmeticNative.mint_equal xs valid h =
    two-Answers _ (λ x y. is_large_integer x) xs h (λ x y h. mint_equal-Answers x y h)
call-Answers floats room ArithmeticNative.mint_less xs valid h =
    two-Answers _ (λ x y. is_large_integer x) xs h (λ x y h. mint_less-Answers x y h)
call-Answers floats room ArithmeticNative.mint_less_equal xs valid h =
    two-Answers _ (λ x y. is_large_integer x) xs h (λ x y h. mint_less_equal-Answers x y h)
call-Answers floats room ArithmeticNative.mint_greater xs valid h =
    two-Answers _ (λ x y. is_large_integer x) xs h (λ x y h. mint_greater-Answers x y h)
call-Answers floats room ArithmeticNative.mint_greater_equal xs valid h =
    two-Answers _ (λ x y. is_large_integer x) xs h (λ x y h. mint_greater_equal-Answers x y h)
call-Answers floats room ArithmeticNative.double_negate xs valid h =
    one-Answers _ is_double xs h (λ x h. double_negate-Answers floats room x h)
call-Answers floats room ArithmeticNative.double_add xs valid h =
    two-Answers _ (λ x y. is_double x) xs h (λ x y h. double_add-Answers floats room x y h)
call-Answers floats room ArithmeticNative.double_sub xs valid h =
    two-Answers _ (λ x y. is_double x) xs h (λ x y h. double_sub-Answers floats room x y h)
call-Answers floats room ArithmeticNative.double_mul xs valid h =
    two-Answers _ (λ x y. is_double x) xs h (λ x y h. double_mul-Answers floats room x y h)
call-Answers floats room ArithmeticNative.double_mod xs valid h =
    two-Answers _ (λ x y. is_double x) xs h (λ x y h. double_mod-Answers floats room x y h)
call-Answers floats room ArithmeticNative.double_div xs valid h =
    two-Answers _ (λ x y. is_double x) xs h (λ x y h. double_div-Answers floats room x y h)
call-Answers floats room ArithmeticNative.double_trunc_div xs valid h = absurd (ground arith)
call-Answers floats room ArithmeticNative.double_equal xs valid h =
    two-Answers _ (λ x y. is_double x) xs h (λ x y h. double_equal-Answers floats x y h)
call-Answers floats room ArithmeticNative.double_less xs valid h =
    two-Answers _ (λ x y. is_double x) xs h (λ x y h. double_less-Answers floats x y h)
call-Answers floats room ArithmeticNative.double_less_equal xs valid h =
    two-Answers _ (λ x y. is_double x) xs h (λ x y h. double_less_equal-Answers floats x y h)
call-Answers floats room ArithmeticNative.double_greater xs valid h =
    two-Answers _ (λ x y. is_double x) xs h (λ x y h. double_greater-Answers floats x y h)
call-Answers floats room ArithmeticNative.double_greater_equal xs valid h =
    two-Answers _ (λ x y. is_double x) xs h (λ x y h. double_greater_equal-Answers floats x y h)
call-Answers floats room ArithmeticNative.double_is_nan xs valid h =
    one-Answers _ is_double xs h (λ x h. double_is_nan-Answers floats x h)
call-Answers floats room ArithmeticNative.double_is_negative xs valid h =
    one-Answers _ is_double xs h (λ x h. double_is_negative-Answers floats x h)
call-Answers floats room ArithmeticNative.double_ceil xs valid h = absurd (ground arith)
call-Answers floats room ArithmeticNative.double_ceil_to_double xs valid h =
    one-Answers _ is_double xs h (λ x h. double_ceil_to_double-Answers floats room x h)
call-Answers floats room ArithmeticNative.double_round xs valid h = absurd (ground arith)
call-Answers floats room ArithmeticNative.double_round_to_double xs valid h =
    one-Answers _ is_double xs h (λ x h. double_round_to_double-Answers floats room x h)
call-Answers floats room ArithmeticNative.double_floor xs valid h = absurd (ground arith)
call-Answers floats room ArithmeticNative.double_floor_to_double xs valid h =
    one-Answers _ is_double xs h (λ x h. double_floor_to_double-Answers floats room x h)
call-Answers floats room ArithmeticNative.double_truncate xs valid h = absurd (ground arith)
call-Answers floats room ArithmeticNative.double_truncate_to_double xs valid h =
    one-Answers _ is_double xs h (λ x h. double_truncate_to_double-Answers floats room x h)
call-Answers floats room ArithmeticNative.double_remainder xs valid h =
    two-Answers _ (λ x y. is_double x) xs h (λ x y h. double_remainder-Answers floats room x y h)
call-Answers floats room ArithmeticNative.double_to_int xs valid h = absurd (ground arith)
call-Answers floats room ArithmeticNative.double_sin xs valid h =
    one-Answers _ (λ x. true) xs h (λ x h. double_sin-Answers floats room x)
call-Answers floats room ArithmeticNative.double_cos xs valid h =
    one-Answers _ (λ x. true) xs h (λ x h. double_cos-Answers floats room x)
call-Answers floats room ArithmeticNative.double_tan xs valid h =
    one-Answers _ (λ x. true) xs h (λ x h. double_tan-Answers floats room x)
call-Answers floats room ArithmeticNative.double_acos xs valid h =
    one-Answers _ (λ x. true) xs h (λ x h. double_acos-Answers floats room x)
call-Answers floats room ArithmeticNative.double_asin xs valid h =
    one-Answers _ (λ x. true) xs h (λ x h. double_asin-Answers floats room x)
call-Answers floats room ArithmeticNative.double_atan xs valid h =
    one-Answers _ (λ x. true) xs h (λ x h. double_atan-Answers floats room x)
call-Answers floats room ArithmeticNative.double_sqrt xs valid h =
    one-Answers _ (λ x. true) xs h (λ x h. double_sqrt-Answers floats room x)
call-Answers floats room ArithmeticNative.double_exp xs valid h =
    one-Answers _ (λ x. true) xs h (λ x h. double_exp-Answers floats room x)
call-Answers floats room ArithmeticNative.double_log xs valid h =
    one-Answers _ (λ x. true) xs h (λ x h. double_log-Answers floats room x)
call-Answers floats room ArithmeticNative.double_atan2 xs valid h =
    two-Answers _ (λ x y. true) xs h (λ x y h. double_atan2-Answers floats room x y)
call-Answers floats room ArithmeticNative.double_pow xs valid h =
    two-Answers _ (λ x y. true) xs h (λ x y h. double_pow-Answers floats room x y)

-- A call by the table of an arithmetic native of numbers, which leaves out those that parse or
-- print a number, on arguments whose Smis lie in the range of Smis and whose large integers are
-- words, with enough of them, the receiver in the class of the native, no count of a shift
-- below 0 or, for a large one, from 2^63 - 64 on, and but for the natives that cast a double to
-- an integer, always has an answer; and an object that it answers with lies in its range too,
-- so that no native hands a value out of range to Smi::FromWord.
pub call_lem :
    (floats : Floats) (room : Bool) (native : ArithmeticNative) (arguments : List Object)
    → AllValid arguments
    → suits native arguments ≡ true
    → (r : Result) × (call floats room native arguments ≡ some r) × ValidResult (some r)
call_lem floats room native xs valid h =
    let (r, e) = call-Answers floats room native xs valid h in
    (r, e, subst ValidResult e (call-Valid floats room native xs valid))
