-- ===== src/Message/Buffer.antt =====
-- The buffer of a data message as a stream of bytes: `Read` and `Write` for `DataMessage`.
use lunatic.Prelude.{
  ℕ, zero, suc, ◌+◌, ◌≤◌, ◌≡◌, refl, sym, ap, ◌∙◌, List, [], ◌∷◌, ◌++◌, some, arith, length, take,
  drop, length-append,
}
use lunatic.Message.{DataMessage, Allocator, read, write, seek, size}

take-nil : (k : ℕ) → take {A = ℕ} k [] ≡ []
take-nil zero = refl
take-nil (suc k) = refl

drop-nil : (k : ℕ) → drop {A = ℕ} k [] ≡ []
drop-nil zero = refl
drop-nil (suc k) = refl

suc_add : (n k : ℕ) → suc n + k ≡ suc (n + k)
suc_add n k = omega arith

zero_add : (k : ℕ) → zero + k ≡ k
zero_add k = omega arith

take-add : (n k : ℕ) (xs : List ℕ) → take (n + k) xs ≡ take n xs ++ take k (drop n xs)
take-add zero k xs = rw (zero_add k)
take-add (suc n) k [] = rw (take-nil (suc n + k), take-nil k)
take-add (suc n) k (x ∷ xs) = rw (suc_add n k) (ap (◌∷◌ x) (take-add n k xs))

drop-length-take : (n : ℕ) (xs : List ℕ) → drop (length (take n xs)) xs ≡ drop n xs
drop-length-take zero xs = refl
drop-length-take (suc n) [] = refl
drop-length-take (suc n) (x ∷ xs) = drop-length-take n xs

drop-drop : (n k : ℕ) (xs : List ℕ) → drop k (drop n xs) ≡ drop (n + k) xs
drop-drop zero k xs = rw (zero_add k)
drop-drop (suc n) k [] = rw (drop-nil k, drop-nil (suc n + k))
drop-drop (suc n) k (x ∷ xs) = rw (suc_add n k) (drop-drop n k xs)

length-take-drop :
    (n p : ℕ) (xs : List ℕ) → p ≤ length xs → p + length (take n (drop p xs)) ≤ length xs
length-take-drop zero zero xs h = omega arith
length-take-drop (suc n) zero [] h = omega arith
length-take-drop (suc n) zero (x ∷ xs) h = omega (arith, length-take-drop n zero xs)
length-take-drop n (suc p) [] h = absurd (omega arith)
length-take-drop n (suc p) (x ∷ xs) h = omega (arith, length-take-drop n p xs)

bytes_at : DataMessage → ℕ → ℕ → List ℕ
bytes_at m p n = take n (drop p m.buffer)

read_lem :
    (n : ℕ) (m : DataMessage)
    → m.read_ptr ≤ length m.buffer
    → let bs = bytes_at m m.read_ptr n in
      read n m ≡ some (bs, record m { read_ptr = m.read_ptr + length bs })
unfolding read bytes_at
read_lem n m h = ground arith

next_bytes :
    (n k p : ℕ) (xs : List ℕ)
    → take k (drop (p + length (take n (drop p xs))) xs) ≡ take k (drop n (drop p xs))
next_bytes n k p xs = ap (take k) (sym (drop-drop p _ xs) ∙ drop-length-take n (drop p xs))

-- Reading `n` and then `k` bytes gives the bytes, and leaves the message, that reading `n + k`
-- bytes at once does, wherever the read pointer is within the buffer.
pub read-read :
    (n k : ℕ) (m : DataMessage)
    → m.read_ptr ≤ size m
    → (bs cs : List ℕ) × (m' m'' : DataMessage) × (read n m ≡ some (bs, m'))
      × (read k m' ≡ some (cs, m''))
      × (read (n + k) m ≡ some (bs ++ cs, m''))
unfolding size bytes_at
read-read n k m h = (bs, cs, m', m'', read_lem n m h, read_lem k m' in_range, whole)
  where
    open m use {buffer, read_ptr}

    bs : List ℕ
    bs = take n (drop read_ptr buffer)

    m' : DataMessage
    m' = record m { read_ptr = read_ptr + length bs }

    cs : List ℕ
    cs = take k (drop (read_ptr + length bs) buffer)

    m'' : DataMessage
    m'' = record m { read_ptr = read_ptr + length bs + length cs }

    in_range : m'.read_ptr ≤ length m'.buffer
    in_range = length-take-drop n read_ptr buffer h

    joined : take (n + k) (drop read_ptr buffer) ≡ bs ++ cs
    joined =
        take-add n k (drop read_ptr buffer) ∙ ap (◌++◌ bs) (sym (next_bytes n k read_ptr buffer))

    whole : read (n + k) m ≡ some (bs ++ cs, m'')
    whole = read_lem (n + k) m h ∙ rw joined (ground (arith, length-append bs cs))

drop-append : (xs ys : List ℕ) → drop (length xs) (xs ++ ys) ≡ ys
drop-append [] ys = refl
drop-append (x ∷ xs) ys = drop-append xs ys

take-length : (xs : List ℕ) → take (length xs) xs ≡ xs
take-length [] = refl
take-length (x ∷ xs) = ap (◌∷◌ x) (take-length xs)

-- What `write` appends is what a read of as many bytes from the old end of the buffer gives.
pub read-write :
    (alloc : Allocator) (buf : List ℕ) (m : DataMessage)
    → let m' = seek (size m) (write alloc buf m).0 in
      read (length buf) m' ≡ some (buf, seek (size m + length buf) m')
unfolding write seek size bytes_at
read-write alloc buf m =
    let m' = record m {
      read_ptr = length m.buffer;
      buffer = m.buffer ++ buf;
      buffer_capacity = (write alloc buf m).0.buffer_capacity;
    } in
    read_lem (length buf) m' (omega (arith, length-append m.buffer buf))
    ∙ rw (drop-append m.buffer buf) (rw (take-length buf))
