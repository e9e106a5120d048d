-- ===== src/Wire/Sockets.antt =====
-- src/shared/native_socket_posix.cc: Socket::Read and Socket::Write, which call the system until all
-- the bytes have passed. The stream is the bytes that the peer has sent and that were not read; the
-- system's `read` takes `arrives n p` of them, of `n` asked for and `p` there, none for a peer that
-- has closed; `write` takes `accepts n` of `n`. An error of the system is not modelled.
use dartino_sdk.Base.{
  ℕ, zero, suc, ◌+◌, ◌-◌, ◌≤◌, ◌<◌, ◌≡◌, sym, ap, ◌∙◌, Option, none, some, List, [], ◌++◌, arith,
  length, take, drop, ltb, leb, ltb→lt, Bool-cases, inl, inr, ◌==◌, if◌then◌else◌, length-append,
  length-take, length-drop, drop_all, ==_iff, append_assoc, append-nil, take-append, drop-drop,
  drop-append,
}
use dartino_sdk.Memory.{seg, seg_zero, seg_split, take-take}

pub sys_read : (ℕ → ℕ → ℕ) → ℕ → List ℕ → List ℕ × List ℕ
sys_read arrives n s = (take (arrives n (length s)) s, drop (arrives n (length s)) s)

-- What read(2) says: at least a byte if there is one, at most those asked for and those there.
abbrev pub Delivers : (ℕ → ℕ → ℕ) → Type 0
Delivers arrives =
    (n p : ℕ) → (0 < n → 0 < p → 0 < arrives n p) × (arrives n p ≤ n) × (arrives n p ≤ p)

-- `some (none, _)` is NULL; `none` is a lack of fuel.
pub read_loop : (ℕ → ℕ → ℕ) → ℕ → ℕ → List ℕ → List ℕ → Option (Option (List ℕ) × List ℕ)
read_loop arrives zero n got s = none
read_loop arrives (suc fuel) n got s =
    let (bytes, s') = sys_read arrives (n - length got) s in
    let rest = read_loop arrives fuel n (got ++ bytes) s' in
    if ltb (length got) n
    then (if length bytes == 0 then some (none, s') else rest)
    else some (some got, s)

pub socket_read : (ℕ → ℕ → ℕ) → ℕ → List ℕ → Option (Option (List ℕ) × List ℕ)
socket_read arrives n s = read_loop arrives (suc n) n [] s

-- What write(2) says: at least a byte, at most those offered.
abbrev pub Accepts : (ℕ → ℕ) → Type 0
Accepts accepts = (n : ℕ) → 0 < n → (0 < accepts n) × (accepts n ≤ n)

-- `out` is what the peer can read.
pub write_loop : (ℕ → ℕ) → ℕ → List ℕ → ℕ → ℕ → List ℕ → Option (List ℕ)
write_loop accepts zero bytes n offset out = none
write_loop accepts (suc fuel) bytes n offset out =
    let k = accepts (n - offset) in
    let rest = write_loop accepts fuel bytes n (offset + k) (out ++ seg bytes offset k) in
    if ltb offset n then rest else some out

pub socket_write : (ℕ → ℕ) → List ℕ → ℕ → List ℕ → Option (List ℕ)
socket_write accepts bytes n out = write_loop accepts (suc n) bytes n 0 out

abbrev outcome : List ℕ → ℕ → List ℕ → Option (List ℕ) × List ℕ
outcome got m s = if leb m (length s) then (some (got ++ take m s), drop m s) else (none, [])

outcome_step :
    (got s : List ℕ) (k m : ℕ)
    → k ≤ length s
    → k ≤ m
    → outcome (got ++ take k s) (m - k) (drop k s) ≡ outcome got m s
outcome_step got s k m h h' =
    let e : k + (m - k) ≡ m = omega arith in
    let d = length-drop k s in
    let t =
      append_assoc got (take k s) (take (m - k) (drop k s))
      ∙ ap (◌++◌ got) (sym (take-take s k (m - k)) ∙ ap (λ i. take i s) e) in
    let u = drop-drop s k (m - k) ∙ ap (λ i. drop i s) e in ground (arith, t, u, d)

module _ (arrives : ℕ → ℕ → ℕ) (d : Delivers arrives) where
  read_loop_lem :
      (fuel n : ℕ) (got s : List ℕ)
      → length got ≤ n
      → n - length got < fuel
      → read_loop arrives fuel n got s ≡ some (outcome got (n - length got) s)
  unfolding read_loop sys_read
  read_loop_lem zero n got s h g = absurd (omega arith)
  read_loop_lem (suc fuel) n got s h g =
      let m = n - length got in
      let k = arrives m (length s) in
      let (some_arrive, asked, there) = d m (length s) in
      let lt = length-take k s in
      let la = length-append got (take k s) in
      elim (Bool-cases (ltb (length got) n)) [
        | inl e ↦
            let l = ltb→lt (length got) n e in
            elim (Bool-cases (length (take k s) == 0)) [
              | inl z ↦
                  let z' = (==_iff (length (take k s)) 0).0 z in
                  let gone : length s ≡ 0 = ground (arith, some_arrive) in
                  let left = drop_all k s (omega (arith, gone)) in
                  rw (e, z) (ground (arith, left, gone))
              | inr z ↦
                  rw (e, z)
                    (read_loop_lem fuel n (got ++ take k s) (drop k s)
                        (omega (arith, la, lt, asked)) (ground (arith, la, lt, asked, there, z))
                      ∙ ap some (
                          ap (λ i. outcome (got ++ take k s) i (drop k s))
                            (omega (arith, la, lt, asked, there))
                          ∙ outcome_step got s k m there asked))
            ]
        | inr e ↦
            let none_left : m ≡ 0 = ground arith in
            rw (e, none_left) (ground (arith, append-nil got))
      ]

  -- Socket::Read returns the next n bytes, however the system delivers them, and leaves the
  -- rest; if the peer closes before n bytes it returns NULL. The loop ends in either case.
  pub socket_read_lem :
      (n : ℕ) (s : List ℕ)
      → socket_read arrives n s
        ≡ some (if leb n (length s) then (some (take n s), drop n s) else (none, []))
  unfolding socket_read
  socket_read_lem n s =
      read_loop_lem (suc n) n [] s (omega arith) (omega arith)
      ∙ ap (λ i. some (outcome [] i s)) {y = n} (omega arith)

  pub socket_read-append :
      (xs ys : List ℕ) (n : ℕ)
      → length xs ≡ n
      → socket_read arrives n (xs ++ ys) ≡ some (some xs, ys)
  socket_read-append xs ys n e =
      let l = length-append xs ys in
      let t = ap (λ i. take i (xs ++ ys)) (sym e) ∙ take-append xs ys in
      let u = ap (λ i. drop i (xs ++ ys)) (sym e) ∙ drop-append xs ys in
      socket_read_lem n (xs ++ ys) ∙ ground (arith, l, t, u)

module _ (accepts : ℕ → ℕ) (a : Accepts accepts) where
  write_loop_lem :
      (fuel : ℕ) (bytes : List ℕ) (n offset : ℕ) (out : List ℕ)
      → offset ≤ n
      → n - offset < fuel
      → write_loop accepts fuel bytes n offset out ≡ some (out ++ seg bytes offset (n - offset))
  unfolding write_loop
  write_loop_lem zero bytes n offset out h g = absurd (omega arith)
  write_loop_lem (suc fuel) bytes n offset out h g =
      let k = accepts (n - offset) in
      elim (Bool-cases (ltb offset n)) [
        | inl e ↦
            let l = ltb→lt offset n e in
            let (more, most) = a (n - offset) (omega arith) in
            rw e (
              write_loop_lem fuel bytes n (offset + k) (out ++ seg bytes offset k)
                (omega (arith, more, most)) (omega (arith, more, most))
              ∙ ap some (
                  append_assoc out (seg bytes offset k) (seg bytes (offset + k) (n - (offset + k)))
                  ∙ ap (◌++◌ out) (
                      sym (seg_split bytes offset k (n - (offset + k)))
                      ∙ ap (seg bytes offset) {x = k + (n - (offset + k))} {y = n - offset}
                          (omega (arith, most)))))
        | inr e ↦
            let done : n - offset ≡ 0 = ground arith in
            rw (e, done) (ground (arith, append-nil out, seg_zero bytes offset))
      ]

  -- Socket::Write passes on the first n bytes in order, however many the system takes at a
  -- time, if it takes at least one.
  pub socket_write_lem :
      (bytes : List ℕ) (n : ℕ) (out : List ℕ)
      → socket_write accepts bytes n out ≡ some (out ++ seg bytes 0 n)
  unfolding socket_write
  socket_write_lem bytes n out =
      write_loop_lem (suc n) bytes n 0 out (omega arith) (omega arith)
      ∙ ap (λ i. some (out ++ seg bytes 0 i)) {y = n} (omega arith)
