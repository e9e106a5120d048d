-- ===== src/Bytecodes/Walk/Sizes.antt =====
-- Bytecode::Size, and what Bytecode::Print reads of the memory.
use dartino_sdk.Base.{
  ℕ, zero, suc, ◌+◌, ◌-◌, ◌≤◌, ◌<◌, ◌≡◌, refl, subst, ap, ◌∙◌, Bool, true, ◌&&◌, none, some, List,
  [], ◌∷◌, arith, get_elem?, length, ◌==◌, ==_iff, Option-cases, inl, inr, String,
}
use dartino_sdk.Memory.{seg}
use dartino_sdk.Wire.Words.{AreBytes}
use dartino_sdk.Bytecodes.{
  Format, Row, bytecodes, invokes, invoke, invoke_bases, loads, others, lasts, size, print_format,
  bytecode_format,
}
use dartino_sdk.Bytecodes.Walk.{print}
use dartino_sdk.Bytecodes.Walk.Operands.{
  operand_bytes, encoded, operands_in, operands_out, byte-inside,
}

abbrev fits : Row → Bool
fits r = r.size == 1 + operand_bytes r.format

abbrev all_fit : List Row → Bool
all_fit [] = true
all_fit (r ∷ rs) = fits r && all_fit rs

table-fits : all_fit bytecodes ≡ true
unfolding bytecodes loads others lasts invokes invoke invoke_bases operand_bytes
table-fits = refl

row-fits :
    (rs : List Row) (i : ℕ) (r : Row)
    → all_fit rs ≡ true
    → get_elem? rs i ≡ some r
    → r.size ≡ 1 + operand_bytes r.format
row-fits [] i r h e = absurd (cc)
row-fits (q ∷ rs) zero r h e =
    let same : q ≡ r = cc in
    subst (λ r. r.size ≡ 1 + operand_bytes r.format) same
      (ground (arith, ==_iff q.size (1 + operand_bytes q.format)))
row-fits (q ∷ rs) (suc i) r h e = row-fits rs i r (ground arith) e

-- In memory of bytes, at an opcode that has a row in the table, if as many bytes as Size gives
-- for the opcode stand in the memory from the opcode on, Print answers with that size, and the
-- operands that it prints, written out in the format of the row, are the bytes behind the
-- opcode; if fewer bytes do, Print reads outside the memory.
pub print-size :
    (bytes : List ℕ) (bcp opcode n : ℕ)
    → AreBytes bytes
    → get_elem? bytes bcp ≡ some opcode
    → size opcode ≡ some n
    → (bcp + n ≤ length bytes
        → (f : Format) × (text : String) × (values : List ℕ) × (bytecode_format opcode ≡ some f)
          × (print bytes bcp ≡ some ((text, values), n))
          × (encoded f values ≡ seg bytes (bcp + 1) (n - 1)))
      × (length bytes < bcp + n → print bytes bcp ≡ none)
unfolding print size print_format bytecode_format
print-size bytes bcp opcode n small here sized = elim (Option-cases (get_elem? bytecodes opcode)) [
  | inl e ↦ absurd (ground (arith, e, sized))
  | inr (r, e) ↦
      let same : r.size ≡ n = ground (arith, e, sized) in
      let wide = row-fits bytecodes opcode r table-fits e in
      (
        (λ h.
            let (values, run, back) =
              operands_in bytes bcp small r.format (omega (arith, h, same, wide)) in
            (
              r.format,
              r.print,
              values,
              rw e refl,
              rw (here, e, run, same) refl,
              back ∙ ap (seg bytes (bcp + 1)) (omega (arith, same, wide)),
            )),
        λ h.
            let run =
              operands_out bytes bcp (byte-inside bytes bcp opcode here) r.format
                (omega (arith, h, same, wide)) in
            rw (here, e, run) refl,
      )
]
