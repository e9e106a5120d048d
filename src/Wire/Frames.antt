-- ===== src/Wire/Frames.antt =====
-- src/shared/socket_connection.cc: a command on the wire is the length of its buffer in four bytes,
-- the opcode in one, and the buffer. Send holds a mutex, so frames do not mix.
use dartino_sdk.Base.{
  ℕ, ◌+◌, ◌^◌, ◌≤◌, ◌<◌, ◌≡◌, refl, ap, ◌∙◌, true, ◌&&◌, Option, none, some, List, [], ◌∷◌, ◌++◌,
  arith, length, take, ltb, lt→ltb, Bool-cases, inl, inr, ◌==◌, ==_iff, get_elem?, if◌then◌else◌,
  length-append, append_assoc, append-nil,
}
use dartino_sdk.Memory.{◌>>=◌, seg, seg_whole, seg_zero}
use dartino_sdk.Wire.{Buffer, empty, set_buffer, clear_buffer, le_bytes, of_le}
use dartino_sdk.Wire.Words.{length-le_bytes, of_le-le_bytes}
use dartino_sdk.Wire.Writing.{IsValid, written, length-written}
use dartino_sdk.Wire.RoundTrip.{
  Field, AllFit, write_all, encode_all, encode_all-nil, write_all-written, ReadsAll,
  set_buffer-ReadsAll, read_none,
}
use dartino_sdk.Wire.Opcodes.{Opcode, code}
use dartino_sdk.Wire.Sockets.{
  Delivers, Accepts, socket_read, socket_write, socket_read-append, socket_write_lem,
}

pub send : (ℕ → ℕ) → Opcode → Buffer → List ℕ → Option (List ℕ)
send accepts op b out = socket_write accepts (le_bytes 4 b.offset ++ code op ∷ []) 5 out >>= λ out'.
    if b.offset == 0 then some out' else socket_write accepts b.cells b.offset out'

-- SetBuffer runs before the test for NULL.
received : ℕ → ℕ → Option (List ℕ) → ℕ × Buffer
received op n none = (code Opcode.connection_error, set_buffer [] n)
received op n (some bytes) = (op, set_buffer bytes n)

-- What Receive does after the header; a length is an int, and positive below 2^31.
receive_body : (ℕ → ℕ → ℕ) → Buffer → ℕ → ℕ → List ℕ → Option (ℕ × Buffer × List ℕ)
receive_body arrives b op n s =
    if ltb 0 n && ltb n (2 ^ 31)
    then (socket_read arrives n s >>= λ (body, s').
        some ((received op n body).0, (received op n body).1, s'))
    else some (op, b, s)

receive_frame : (ℕ → ℕ → ℕ) → Buffer → Option (List ℕ) → List ℕ → Option (ℕ × Buffer × List ℕ)
receive_frame arrives b none s = some (code Opcode.connection_error, b, s)
receive_frame arrives b (some bytes) s =
    get_elem? bytes 4 >>= λ op. receive_body arrives b op (of_le (take 4 bytes)) s

-- The opcode is a byte of the wire.
pub receive : (ℕ → ℕ → ℕ) → Buffer → List ℕ → Option (ℕ × Buffer × List ℕ)
receive arrives b s = clear_buffer b >>= λ b'.
    socket_read arrives 5 s >>= λ (header, s'). receive_frame arrives b' header s'

-- The receiver's buffer after a frame: an empty frame only clears it.
abbrev pub incoming : Buffer → Buffer → Buffer
incoming b r = if b.offset == 0 then record r { cells = [] } else set_buffer (written b) b.offset

abbrev pub frame : Opcode → Buffer → List ℕ
frame op b = (le_bytes 4 b.offset ++ code op ∷ []) ++ written b

send_lem :
    (accepts : ℕ → ℕ)
    → Accepts accepts
    → (op : Opcode) (b : Buffer) (out : List ℕ) → send accepts op b out ≡ some (out ++ frame op b)
unfolding send written
send_lem accepts a op b out =
    let head = le_bytes 4 b.offset ++ code op ∷ [] in
    let l : length head ≤ 5 =
      omega
        (arith, length-append (le_bytes 4 b.offset) (code op ∷ []), length-le_bytes 4 b.offset) in
    let w : socket_write accepts head 5 out ≡ some (out ++ head) =
      socket_write_lem accepts a head 5 out ∙ ap (λ xs. some (out ++ xs)) (seg_whole head 5 l) in
    elim (Bool-cases (b.offset == 0)) [
      | inl e ↦ rw (w, e) (ground (arith, seg_zero b.cells 0, append-nil head))
      | inr e ↦
          rw (w, e)
            (socket_write_lem accepts a b.cells b.offset (out ++ head)
              ∙ ap some (append_assoc out head (seg b.cells 0 b.offset)))
    ]

module _ (arrives : ℕ → ℕ → ℕ) (d : Delivers arrives) (op : Opcode) (b r : Buffer) (later : List ℕ)
    (v : IsValid b) (h : b.offset < 2 ^ 31) where
  body_lem :
      receive_body arrives (record r { cells = [] }) (code op) b.offset (written b ++ later)
      ≡ some (code op, incoming b r, later)
  unfolding receive_body received
  body_lem =
      let l = length-written b v in
      elim (Bool-cases (b.offset == 0)) [
        | inl e ↦
            let z = (==_iff b.offset 0).0 e in
            let nothing : written b ≡ [] = ground (arith, l) in rw (nothing, z) refl
        | inr e ↦
            let pos : ltb 0 b.offset ≡ true = ground arith in
            rw
              (
                e,
                pos,
                lt→ltb b.offset (2 ^ 31) h,
                socket_read-append arrives d (written b) later b.offset l,
              )
              refl
      ]

  frame_lem :
      receive_frame arrives
        (record r { cells = [] })
        (some (le_bytes 4 b.offset ++ code op ∷ []))
        (written b ++ later)
      ≡ some (code op, incoming b r, later)
  unfolding receive_frame le_bytes
  frame_lem =
      ap (λ n. receive_body arrives (record r { cells = [] }) (code op) n (written b ++ later))
        (of_le-le_bytes 4 b.offset (omega arith))
      ∙ body_lem

receive_lem :
    (arrives : ℕ → ℕ → ℕ)
    → Delivers arrives
    → (op : Opcode) (b r : Buffer) (later : List ℕ) → IsValid b
    → b.offset < 2 ^ 31
    → r.offset ≡ r.limit
    → receive arrives r (frame op b ++ later) ≡ some (code op, incoming b r, later)
unfolding receive clear_buffer
receive_lem arrives d op b r later v h read_out =
    let head = le_bytes 4 b.offset ++ code op ∷ [] in
    let l : length head ≡ 5 =
      omega
        (arith, length-append (le_bytes 4 b.offset) (code op ∷ []), length-le_bytes 4 b.offset) in
    let run =
      ap (socket_read arrives 5) (append_assoc head (written b) later)
      ∙ socket_read-append arrives d head (written b ++ later) 5 l in
    rw ((==_iff r.offset r.limit).1 read_out, run) (frame_lem arrives d op b r later v h)

incoming-ReadsAll :
    (fs : List Field) (b r : Buffer)
    → AllFit fs
    → IsValid b
    → written b ≡ encode_all fs
    → r.offset ≡ r.limit
    → ReadsAll fs (incoming b r)
incoming-ReadsAll fs b r fit v w read_out =
    let l = length-written b v in
    elim (Bool-cases (b.offset == 0)) [
      | inl e ↦
          let none_there : fs ≡ [] = encode_all-nil fs (ground (arith, l, ap length w)) in
          rw (e, none_there)
            (record r { cells = [] }, read_none (record r { cells = [] }), read_out)
      | inr e ↦ rw e (set_buffer-ReadsAll fs b fit v w)
    ]

-- Fields that fit, written to an empty buffer and sent under an opcode, are on the wire as one
-- frame. A receiver whose buffer was read to its end, and who gets that frame, gives the
-- opcode, leaves what follows on the wire, and reading the kinds of the fields from its buffer
-- gives the same fields and reaches its end. It holds however the system cuts the frame, for
-- encodings below 2^31 - 63 bytes.
pub receive-send :
    (accepts : ℕ → ℕ)
    → Accepts accepts
    → (arrives : ℕ → ℕ → ℕ) → Delivers arrives
    → (op : Opcode) (fs : List Field) (r : Buffer) (out later : List ℕ) → AllFit fs
    → r.offset ≡ r.limit
    → length (encode_all fs) + 63 < 2 ^ 31
    → (b r' : Buffer) × (m : List ℕ) × (write_all empty fs ≡ some b)
      × (send accepts op b out ≡ some (out ++ m))
      × (receive arrives r (m ++ later) ≡ some (code op, r', later))
      × ReadsAll fs r'
receive-send accepts a arrives d op fs r out later fit read_out small =
    let (b, written_run, v, w) = write_all-written fs small in
    let l = length-written b v in
    (
      b,
      incoming b r,
      frame op b,
      written_run,
      send_lem accepts a op b out,
      receive_lem arrives d op b r later v (omega (arith, l, ap length w)) read_out,
      incoming-ReadsAll fs b r fit v w read_out,
    )
