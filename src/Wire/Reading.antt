-- ===== src/Wire/Reading.antt =====
-- What each read takes from the bytes not read yet.
use dartino_sdk.Base.{
  ℕ, ◌+◌, ◌^◌, ◌≤◌, ◌<◌, ◌≡◌, refl, sym, ap, subst, ◌∙◌, Bool, true, false, Option, some, List, [],
  ◌∷◌, ◌++◌, arith, length, take, drop, lt→ltb, le→leb, if◌then◌else◌, length-append, append_assoc,
  drop-append, take-append,
}
use dartino_sdk.Memory.{load, seg}
use dartino_sdk.Wire.{Buffer, get, read_int, read_int64, read_boolean, read_bytes, le_bytes, of_le}
use dartino_sdk.Wire.Words.{length-le_bytes, of_le-le_bytes}

-- The buffer holds `seen`, which was read, and `rest`, which was not.
pub record Stands (b : Buffer) (seen rest : List ℕ) : Type 0 where
  pub split : b.cells ≡ seen ++ rest
  pub reached : b.offset ≡ length seen
  pub sized : b.limit ≡ length b.cells

-- A read gives the value and passes its bytes.
abbrev pub Reads {ℓ} : {A : Type ℓ} → List ℕ → A → List ℕ → Option (A × Buffer) → Type ℓ
Reads seen a rest r = (b' : Buffer) × (r ≡ some (a, b')) × Stands b' seen rest

get-Reads :
    (b : Buffer) (seen bytes rest : List ℕ)
    → Stands b seen (bytes ++ rest)
    → (n : ℕ) → n ≡ length bytes
    → Reads (seen ++ bytes) bytes rest (get b n)
unfolding get load seg
get-Reads b seen bytes rest s n e =
    let whole = length-append seen (bytes ++ rest) in
    let tail = length-append bytes rest in
    let long = ap length s.split in
    let room : b.offset + n ≤ b.limit = omega (arith, s.reached, s.sized, whole, tail, long) in
    let room' : b.offset + n ≤ length b.cells = omega (arith, room, s.sized) in
    let found : take n (drop b.offset b.cells) ≡ bytes =
      ap (λ k. take k (drop b.offset b.cells)) e
      ∙ ap (λ xs. take (length bytes) (drop b.offset xs)) s.split
      ∙ ap (λ k. take (length bytes) (drop k (seen ++ (bytes ++ rest)))) s.reached
      ∙ ap (take (length bytes)) (drop-append seen (bytes ++ rest))
      ∙ take-append bytes rest in
    (
      record b { offset = b.offset + n },
      rw (le→leb _ _ room, le→leb _ _ room')
          (ap (λ xs. some (xs, record b { offset = b.offset + n })) found),
      record {
        split = s.split ∙ sym (append_assoc seen bytes rest);
        reached = omega (arith, s.reached, e, length-append seen bytes);
        sized = s.sized;
      },
    )

module _ (b : Buffer) (seen rest : List ℕ) where
  pub read_int-Reads :
      (w : ℕ)
      → w < 2 ^ 32
      → Stands b seen (le_bytes 4 w ++ rest)
      → Reads (seen ++ le_bytes 4 w) w rest (read_int b)
  unfolding read_int
  read_int-Reads w h s =
      let (b', run, t) = get-Reads b seen (le_bytes 4 w) rest s 4 (sym (length-le_bytes 4 w)) in
      (b', rw run (ap (λ x. some (x, b')) (of_le-le_bytes 4 w (omega arith))), t)

  pub read_int64-Reads :
      (w : ℕ)
      → w < 2 ^ 64
      → Stands b seen (le_bytes 8 w ++ rest)
      → Reads (seen ++ le_bytes 8 w) w rest (read_int64 b)
  unfolding read_int64
  read_int64-Reads w h s =
      let (b', run, t) = get-Reads b seen (le_bytes 8 w) rest s 8 (sym (length-le_bytes 8 w)) in
      (b', rw run (ap (λ x. some (x, b')) (of_le-le_bytes 8 w (omega arith))), t)

  pub read_boolean-Reads :
      (x : Bool)
      → Stands b seen ((if x then 1 else 0) ∷ rest)
      → Reads (seen ++ (if x then 1 else 0) ∷ []) x rest (read_boolean b)
  unfolding read_boolean of_le
  read_boolean-Reads true s =
      let (b', run, t) = get-Reads b seen (1 ∷ []) rest s 1 refl in (b', rw run refl, t)
  read_boolean-Reads false s =
      let (b', run, t) = get-Reads b seen (0 ∷ []) rest s 1 refl in (b', rw run refl, t)

pub read_bytes-Reads :
    (b : Buffer) (seen rest bytes : List ℕ)
    → length bytes < 2 ^ 31
    → Stands b seen (le_bytes 4 (length bytes) ++ bytes ++ rest)
    → Reads (seen ++ (le_bytes 4 (length bytes) ++ bytes)) bytes rest (read_bytes b)
unfolding read_bytes
read_bytes-Reads b seen rest bytes h s =
    let head = le_bytes 4 (length bytes) in
    let s' : Stands b seen (head ++ (bytes ++ rest)) = record {
      split = s.split ∙ ap (◌++◌ seen) (append_assoc head bytes rest);
      reached = s.reached;
      sized = s.sized;
    } in
    let (b', run, t) = read_int-Reads b seen (bytes ++ rest) (length bytes) (omega arith) s' in
    let (b'', run', t') = get-Reads b' (seen ++ head) bytes rest t (length bytes) refl in
    (
      b'',
      rw (run, lt→ltb (length bytes) (2 ^ 31) h) run',
      subst (λ xs. Stands b'' xs rest) (append_assoc seen head bytes) t',
    )
