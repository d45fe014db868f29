-- ===== src/Base64/InPlace/Aliasing.antt =====
-- Decoding a buffer onto itself is decoding a copy of the text: no write reaches what is unread.
use liblcb.Base.{ℕ, zero, suc, ◌+◌, ◌*◌, ◌-◌, ◌/◌, ◌≤◌, ◌<◌, ◌≡◌, refl, sym, ap, ◌∙◌, arith}
use liblcb.Base.{some, [], ◌∷◌, ◌++◌, Bytes, length, take, length-take_le, get_or, length-append}
use native.Mathlib.Nat.{add-zero, zero-add}
use liblcb.Base.Buffer.{put, puts}
use liblcb.Base64.{mem, size_real, decode_loop, decode_to, base64_decode, byte_1, byte_2, byte_3}
use liblcb.Base64.InPlace.{inplace_tail, inplace_loop, decode_inplace}

-- A write before index `j` does not change what stands at `j`.
read_beyond :
    (w rest : Bytes) (b x j : ℕ)
    → length w < j
    → get_or ((w ++ (b ∷ [])) ++ rest) j 0 ≡ get_or (w ++ (x ∷ rest)) j 0
read_beyond w rest b x zero h = elim h [ ]
read_beyond [] rest b x (suc j) h = refl
read_beyond (c ∷ w) rest b x (suc j) h = read_beyond w rest b x j (omega arith)

-- The memory holds `src` from index `r` on.
abbrev Holds : Bytes → ℕ → Bytes → Type 0
Holds memory r src = (j : ℕ) → j < length src → get_or memory (r + j) 0 ≡ get_or src j 0

-- Three places of room from index `length w` on, and four symbols from index `r` on.
module _ (p q s u x y z r : ℕ) (cs w rest : Bytes) (le : length w ≤ r)
    (h : Holds (w ++ (x ∷ y ∷ z ∷ rest)) r (p ∷ q ∷ s ∷ u ∷ cs)) where
  at_0 : get_or (w ++ (x ∷ y ∷ z ∷ rest)) r 0 ≡ p
  at_0 = rw add-zero at (h 0 (omega arith))

  after_1 :
      (j : ℕ) (b : ℕ)
      → r < j
      → get_or ((w ++ (b ∷ [])) ++ (y ∷ z ∷ rest)) j 0 ≡ get_or (w ++ (x ∷ y ∷ z ∷ rest)) j 0
  after_1 j b lt = read_beyond w (y ∷ z ∷ rest) b x j (omega arith)

  after_2 :
      (j : ℕ) (b c : ℕ)
      → r + 1 < j
      → get_or (((w ++ (b ∷ [])) ++ (c ∷ [])) ++ (z ∷ rest)) j 0
        ≡ get_or (w ++ (x ∷ y ∷ z ∷ rest)) j 0
  after_2 j b c lt =
      read_beyond (w ++ (b ∷ [])) (z ∷ rest) c y j (omega (arith, length-append w (b ∷ [])))
      ∙ after_1 j b (omega arith)

  after_3 :
      (j : ℕ) (b c d : ℕ)
      → r + 2 < j
      → get_or ((((w ++ (b ∷ [])) ++ (c ∷ [])) ++ (d ∷ [])) ++ rest) j 0
        ≡ get_or (w ++ (x ∷ y ∷ z ∷ rest)) j 0
  after_3 j b c d lt =
      read_beyond ((w ++ (b ∷ [])) ++ (c ∷ [])) rest d z j
        (omega (arith, length-append w (b ∷ []), length-append (w ++ (b ∷ [])) (c ∷ [])))
      ∙ after_2 j b c (omega arith)

  -- The round writes the bytes of the four symbols as they were, and keeps what is unread.
  round_fits :
      (m t : ℕ)
      → inplace_loop (suc m) t r (record { written = w; room = x ∷ y ∷ z ∷ rest })
        ≡ inplace_loop m t (r + 4) (record {
          written = ((w ++ (byte_1 p q ∷ [])) ++ (byte_2 q s ∷ [])) ++ (byte_3 s u ∷ []);
          room = rest;
        })
  unfolding inplace_loop put
  round_fits m t = rw (
    at_0,
    h 1 (omega arith),
    after_1 (r + 1) (byte_1 p q) (omega arith),
    h 1 (omega arith),
    after_1 (r + 2) (byte_1 p q) (omega arith),
    h 2 (omega arith),
    after_2 (r + 2) (byte_1 p q) (byte_2 q s) (omega arith),
    h 2 (omega arith),
    after_2 (r + 3) (byte_1 p q) (byte_2 q s) (omega arith),
    h 3 (omega arith),
  )

  round-Holds : (b c d : ℕ) → Holds ((((w ++ (b ∷ [])) ++ (c ∷ [])) ++ (d ∷ [])) ++ rest) (r + 4) cs
  round-Holds b c d j lt =
      after_3 (r + 4 + j) b c d (omega arith)
      ∙ ap (λ k. get_or (w ++ (x ∷ y ∷ z ∷ rest)) k 0) (omega arith)
      ∙ h (suc (suc (suc (suc j)))) (omega arith)

-- The tail, on fewer than four symbols.
tail-decode_loop :
    (t r : ℕ) (src w room : Bytes)
    → length src ≡ t
    → t < 4
    → length w ≤ r
    → Holds (w ++ room) r src
    → inplace_tail t r (record { written = w; room = room })
      ≡ decode_loop src (record { written = w; room = room })
unfolding inplace_tail decode_loop puts put
tail-decode_loop t r [] w room e lt le h = rw (← e)
tail-decode_loop t r (p ∷ []) w room e lt le h = rw (← e)
tail-decode_loop t r (p ∷ q ∷ []) w [] e lt le h = rw (← e)
tail-decode_loop t r (p ∷ q ∷ []) w (x ∷ room) e lt le h =
    rw (← e, rw add-zero at (h 0 (omega arith)), h 1 (omega arith))
tail-decode_loop t r (p ∷ q ∷ s ∷ []) w [] e lt le h = rw (← e)
tail-decode_loop t r (p ∷ q ∷ s ∷ []) w (x ∷ []) e lt le h = rw (← e)
tail-decode_loop t r (p ∷ q ∷ s ∷ []) w (x ∷ y ∷ room) e lt le h = rw (
  ← e,
  rw add-zero at (h 0 (omega arith)),
  h 1 (omega arith),
  read_beyond w (y ∷ room) (byte_1 p q) x (r + 1) (omega arith),
  h 1 (omega arith),
  read_beyond w (y ∷ room) (byte_1 p q) x (r + 2) (omega arith),
  h 2 (omega arith),
)
tail-decode_loop t r (p ∷ q ∷ s ∷ u ∷ src) w room e lt le h = absurd (omega arith)

inplace-decode_loop :
    (m t r : ℕ) (src w room : Bytes)
    → length src ≡ 4 * m + t
    → t < 4
    → length w ≤ r
    → Holds (w ++ room) r src
    → inplace_loop m t r (record { written = w; room = room })
      ≡ decode_loop src (record { written = w; room = room })
unfolding inplace_loop
inplace-decode_loop zero t r src w room e lt le h =
    tail-decode_loop t r src w room (omega arith) lt le h
inplace-decode_loop (suc m) t r [] w room e lt le h = absurd (omega arith)
inplace-decode_loop (suc m) t r (p ∷ []) w room e lt le h = absurd (omega arith)
inplace-decode_loop (suc m) t r (p ∷ q ∷ []) w room e lt le h = absurd (omega arith)
inplace-decode_loop (suc m) t r (p ∷ q ∷ s ∷ []) w room e lt le h = absurd (omega arith)
inplace-decode_loop (suc m) t r (p ∷ q ∷ s ∷ u ∷ cs) w [] e lt le h =
    unfold decode_loop puts put in refl
inplace-decode_loop (suc m) t r (p ∷ q ∷ s ∷ u ∷ cs) w (x ∷ []) e lt le h =
    unfold decode_loop puts put in refl
inplace-decode_loop (suc m) t r (p ∷ q ∷ s ∷ u ∷ cs) w (x ∷ y ∷ []) e lt le h =
    unfold decode_loop puts put in refl
inplace-decode_loop (suc m) t r (p ∷ q ∷ s ∷ u ∷ cs) w (x ∷ y ∷ z ∷ rest) e lt le h =
    let w' : Bytes = ((w ++ (byte_1 p q ∷ [])) ++ (byte_2 q s ∷ [])) ++ (byte_3 s u ∷ []) in
    round_fits p q s u x y z r cs w rest le h m t
    ∙ inplace-decode_loop m t (r + 4) cs w' rest (omega arith) lt
        (omega (
          arith,
          length-append w (byte_1 p q ∷ []),
          length-append (w ++ (byte_1 p q ∷ [])) (byte_2 q s ∷ []),
          length-append ((w ++ (byte_1 p q ∷ [])) ++ (byte_2 q s ∷ [])) (byte_3 s u ∷ []),
        ))
        (round-Holds p q s u x y z r cs w rest le h (byte_1 p q) (byte_2 q s) (byte_3 s u))
    ∙ unfold decode_loop puts put in refl

-- The padding is looked for in the text alone.
get_or-take : (n j : ℕ) (xs : Bytes) → j < n → get_or (take n xs) j 0 ≡ get_or xs j 0
get_or-take zero j xs h = elim h [ ]
get_or-take (suc n) j [] h = refl
get_or-take (suc n) zero (x ∷ xs) h = refl
get_or-take (suc n) (suc j) (x ∷ xs) h = get_or-take n j xs (omega arith)

size_real-take : (n m : ℕ) (xs : Bytes) → m ≤ n → size_real (take n xs) m ≡ size_real xs m
unfolding size_real
size_real-take n zero xs h = refl
size_real-take n (suc m) xs h = ground (arith, get_or-take n m xs h, size_real-take n m xs)

size_real-le : (src : Bytes) (n : ℕ) → size_real src n ≤ n
unfolding size_real
size_real-le src zero = omega arith
size_real-le src (suc n) = ground (arith, size_real-le src n)

take-take : (m n : ℕ) (xs : Bytes) → m ≤ n → take m (take n xs) ≡ take m xs
take-take zero n xs h = refl
take-take (suc m) zero xs h = absurd (omega arith)
take-take (suc m) (suc n) [] h = refl
take-take (suc m) (suc n) (x ∷ xs) h = ap (x ∷◌) (take-take m n xs (omega arith))

-- `base64_decode` of the first `n` bytes of a buffer onto the buffer itself does just what it does
-- from a copy of them, in result, reported size, bytes written, and overflow.
pub decode_inplace-decode :
    (buf : Bytes) (n dst_size : ℕ)
    → n ≤ length buf
    → decode_inplace buf n dst_size ≡ base64_decode (mem (take n buf)) (some buf) dst_size
unfolding decode_inplace base64_decode decode_to
decode_inplace-decode buf n dst_size h =
    let real : ℕ = size_real buf n in
    let le : real ≤ n = size_real-le buf n in
    let holds : Holds buf 0 (take real buf) = λ j lt.
      rw zero-add
        (sym (get_or-take real j buf (rw (length-take_le real buf (omega arith)) at lt))) in
    rw (
      length-take_le n buf h,
      size_real-take n n buf (omega arith),
      take-take real n buf le,
      length-take_le real buf (omega arith),
      inplace-decode_loop (real / 4) (real - real / 4 * 4) 0 (take real buf) [] buf
          (rw (length-take_le real buf (omega arith)) (omega arith)) (omega arith) (omega arith)
          holds,
    )
