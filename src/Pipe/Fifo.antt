-- ===== src/Pipe/Fifo.antt =====
-- A pipe of pipe.c is a bounded queue of bytes: what is read is what was written, in order.
use cpu_scheduling_algos.Prelude.{
  ℕ, zero, suc, ◌+◌, ◌-◌, ◌%◌, ◌^◌, ◌≤◌, ◌<◌, ◌≡◌, ◌≢◌, refl, ap, ap₂, ◌∙◌, true, false, List, [],
  ◌∷◌, ◌++◌, update, arith,
}
use cpu_scheduling_algos.Pipe.{Pipe, pipe_size, is_full, is_empty, put_byte, get_byte}

-- The number of bytes in the pipe, with the counters unsigned.
abbrev pub count : Pipe → ℕ
count pi = (pi.nwrite + 2 ^ 32 - pi.nread) % 2 ^ 32

-- The counters are 32-bit words, and the buffer holds no more bytes than it has room for.
pub record IsValid (pi : Pipe) : Type 0 where
  pub read_word : pi.nread < 2 ^ 32
  pub write_word : pi.nwrite < 2 ^ 32
  pub bounded : count pi ≤ pipe_size

-- The `n` bytes of the buffer from the counter `start` on.
abbrev pub bytes : (ℕ → ℕ) → ℕ → ℕ → List ℕ
bytes buffer start zero = []
bytes buffer start (suc n) = buffer (start % pipe_size) ∷ bytes buffer (start + 1) n

-- The bytes in the pipe, oldest first.
abbrev pub contents : Pipe → List ℕ
contents pi = bytes pi.buffer pi.nread (count pi)

bytes-put :
    (buffer : ℕ → ℕ) (start n i ch : ℕ)
    → n < pipe_size
    → i ≡ (start + n) % pipe_size
    → bytes (update buffer i ch) start (suc n) ≡ bytes buffer start n ++ ch ∷ []
bytes-put buffer start zero i ch lt e = ground arith
bytes-put buffer start (suc n) i ch lt e =
    ap₂ ◌∷◌ (ground arith) (bytes-put buffer (start + 1) n i ch (omega arith) (omega arith))

bytes-mod :
    (buffer : ℕ → ℕ) (start start' n : ℕ)
    → start % pipe_size ≡ start' % pipe_size
    → bytes buffer start n ≡ bytes buffer start' n
bytes-mod buffer start start' zero e = refl
bytes-mod buffer start start' (suc n) e =
    ap₂ ◌∷◌ (ap buffer e) (bytes-mod buffer (start + 1) (start' + 1) n (omega arith))

pub not_full : (pi : Pipe) → IsValid pi → is_full pi ≡ false → count pi < pipe_size
not_full pi v room =
    let ne : pi.nwrite ≢ (pi.nread + 512) % 2 ^ 32 = ground arith in
    omega (arith, v.bounded, v.read_word, v.write_word, ne)

pub full_count : (pi : Pipe) → IsValid pi → is_full pi ≡ true → count pi ≡ pipe_size
full_count pi v h =
    let e : pi.nwrite ≡ (pi.nread + 512) % 2 ^ 32 = ground arith in
    omega (arith, v.read_word, v.write_word)

pub empty_count : (pi : Pipe) → IsValid pi → is_empty pi ≡ true → count pi ≡ 0
empty_count pi v h =
    let e : pi.nread ≡ pi.nwrite = ground arith in omega (arith, v.read_word, v.write_word)

pub not_empty : (pi : Pipe) → IsValid pi → is_empty pi ≡ false → 0 < count pi
not_empty pi v h =
    let ne : pi.nread ≢ pi.nwrite = ground arith in omega (arith, v.read_word, v.write_word, ne)

count-put :
    (pi : Pipe) (ch : ℕ)
    → IsValid pi
    → count pi < pipe_size
    → count (put_byte ch pi) ≡ suc (count pi)
unfolding put_byte
count-put pi ch v lt = omega (arith, v.read_word, v.write_word)

pub put_byte_lem :
    (pi : Pipe) (ch : ℕ)
    → IsValid pi
    → is_full pi ≡ false
    → IsValid (put_byte ch pi) × (contents (put_byte ch pi) ≡ contents pi ++ ch ∷ [])
unfolding put_byte
put_byte_lem pi ch v room =
    let lt = not_full pi v room in
    let size = count-put pi ch v lt in
    (
      record { read_word = v.read_word; write_word = omega arith; bounded = omega (arith, size) },
      ap (bytes (put_byte ch pi).buffer pi.nread) size
          ∙ bytes-put pi.buffer pi.nread (count pi) (pi.nwrite % pipe_size) ch lt
              (omega (arith, v.read_word, v.write_word)),
    )

pub get_byte_lem :
    (pi : Pipe)
    → IsValid pi
    → is_empty pi ≡ false
    → IsValid (get_byte pi).1
      × (count pi ≡ suc (count (get_byte pi).1))
      × (contents pi ≡ (get_byte pi).0 ∷ contents (get_byte pi).1)
unfolding get_byte
get_byte_lem pi v some_bytes =
    let lt = not_empty pi v some_bytes in
    let size : count pi ≡ suc (count (get_byte pi).1) = omega (arith, v.read_word, v.write_word) in
    (
      record {
        read_word = omega arith;
        write_word = v.write_word;
        bounded = omega (arith, size, v.bounded);
      },
      size,
      ap (bytes pi.buffer pi.nread) size
          ∙ ap (λ xs. pi.buffer (pi.nread % pipe_size) ∷ xs)
              (bytes-mod pi.buffer (pi.nread + 1) (get_byte pi).1.nread (count (get_byte pi).1)
                (omega (arith, v.read_word))),
    )
