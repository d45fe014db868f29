-- ===== src/Base64/Decode.antt =====
-- What `base64_decode` makes of the text that `base64_encode` writes.
use liblcb.Base.{ℕ, zero, suc, ◌+◌, ◌*◌, ◌/◌, ◌%◌, ◌≤◌, ◌<◌, ◌≡◌, ◌≢◌, refl, sym, ap, ◌∙◌, arith}
use liblcb.Base.{some, [], ◌∷◌, ◌++◌, Bytes, All, IsByte, length, length-append, drop}
use liblcb.Base.{get_or, bind_ext}
use liblcb.Base.Buffer.{Cursor, puts, puts_fits, puts-append}
use liblcb.Base64.{symbol, size_real, decode_loop, byte_1, byte_2, byte_3}
use liblcb.Base64.Tables.{symbol-ne-pad, byte_1-symbol, byte_2-symbol, byte_3-symbol}
use liblcb.Base64.Encode.{sextets, symbols, padding, length-symbols, sextets-lt}

-- The three bytes come back from their four sextets.
module _ (a b c : ℕ) (ha : a < 256) (hb : b < 256) (hc : c < 256) where
  byte_1-back : byte_1 (symbol (a / 4)) (symbol (a % 4 * 16 + b / 16)) ≡ a
  byte_1-back =
      byte_1-symbol (a / 4) (a % 4 * 16 + b / 16) (omega arith) (omega arith) ∙ omega arith

  byte_2-back : byte_2 (symbol (a % 4 * 16 + b / 16)) (symbol (b % 16 * 4 + c / 64)) ≡ b
  byte_2-back =
      byte_2-symbol (a % 4 * 16 + b / 16) (b % 16 * 4 + c / 64) (omega arith) (omega arith)
      ∙ omega arith

  byte_3-back : byte_3 (symbol (b % 16 * 4 + c / 64)) (symbol (c % 64)) ≡ c
  byte_3-back =
      byte_3-symbol (b % 16 * 4 + c / 64) (c % 64) (omega arith) (omega arith) ∙ omega arith

decode_loop-symbols :
    (bs : Bytes) (w : Cursor) → All IsByte bs → decode_loop (symbols (sextets bs)) w ≡ puts w bs
unfolding decode_loop
decode_loop-symbols [] w h = unfold puts in refl
decode_loop-symbols (a ∷ []) w h =
    rw (byte_1-symbol (a / 4) (a % 4 * 16) (omega arith) (omega arith))
      (ap (λ x. puts w (x ∷ [])) (omega arith))
decode_loop-symbols (a ∷ b ∷ []) w h =
    rw
      (
        byte_1-back a b 0 h.0 h.1.0 (omega arith),
        byte_2-symbol (a % 4 * 16 + b / 16) (b % 16 * 4) (omega arith) (omega arith),
      )
      (ap (λ x. puts w (a ∷ x ∷ [])) (omega arith))
decode_loop-symbols (a ∷ b ∷ c ∷ bs) w h =
    rw
      (
        byte_1-back a b c h.0 h.1.0 h.1.1.0,
        byte_2-back a b c h.0 h.1.0 h.1.1.0,
        byte_3-back a b c h.0 h.1.0 h.1.1.0,
      )
      (bind_ext (puts w (a ∷ b ∷ c ∷ [])) _ _ (λ w'. decode_loop-symbols bs w' h.1.1.1)
        ∙ sym (puts-append (a ∷ b ∷ c ∷ []) bs w))

-- The symbol at an index in range is not the padding.
symbols-ne-pad :
    (is rest : Bytes) (n : ℕ)
    → All (λ i. i < 64) is
    → n < length is
    → get_or (symbols is ++ rest) n 0 ≢ b'='
symbols-ne-pad [] rest n h lt = elim lt [ ]
symbols-ne-pad (i ∷ is) rest zero h lt = symbol-ne-pad i h.0
symbols-ne-pad (i ∷ is) rest (suc n) h lt = symbols-ne-pad is rest n h.1 (omega arith)

-- All the padding is taken off, and no symbol.
size_real-symbols :
    (is : Bytes) (n : ℕ) (rest : Bytes)
    → All (λ i. i < 64) is
    → n ≡ length is
    → size_real (symbols is ++ rest) n ≡ n
unfolding size_real
size_real-symbols is zero rest h e = refl
size_real-symbols is (suc n) rest h e = ground (arith, symbols-ne-pad is rest n h)

get_or-append_right :
    (xs ys : Bytes) (j n : ℕ) → n ≡ length xs + j → get_or (xs ++ ys) n 0 ≡ get_or ys j 0
get_or-append_right [] ys j n e = ap (λ k. get_or ys k 0) (omega arith)
get_or-append_right (x ∷ xs) ys j zero e = absurd (omega arith)
get_or-append_right (x ∷ xs) ys j (suc n) e = get_or-append_right xs ys j n (omega arith)

abbrev pub IsPad : ℕ → Type 0
IsPad c = c ≡ b'='

get_or-pad : (pads : Bytes) (j : ℕ) → All IsPad pads → j < length pads → get_or pads j 0 ≡ b'='
get_or-pad [] j h lt = elim lt [ ]
get_or-pad (c ∷ cs) zero h lt = h.0
get_or-pad (c ∷ cs) (suc j) h lt = get_or-pad cs j h.1 (omega arith)

size_real-pads :
    (xs pads : Bytes) (j n : ℕ)
    → All IsPad pads
    → j ≤ length pads
    → n ≡ length xs + j
    → size_real (xs ++ pads) n ≡ size_real (xs ++ pads) (length xs)
size_real-pads xs pads zero n h le e = ap (size_real (xs ++ pads)) (omega arith)
size_real-pads xs pads (suc j) zero h le e = absurd (omega arith)
size_real-pads xs pads (suc j) (suc n) h le e =
    size_real_pad (xs ++ pads) n
      (get_or-append_right xs pads j n (omega arith) ∙ get_or-pad pads j h le)
    ∙ size_real-pads xs pads j n h (omega arith) (omega arith)
  where
    size_real_pad :
        (src : Bytes) (m : ℕ) → get_or src m 0 ≡ b'=' → size_real src (suc m) ≡ size_real src m
    size_real_pad src m p = unfold size_real in rw p

pub padding-IsPad : (bs : Bytes) → All IsPad (padding bs)
padding-IsPad [] = tt
padding-IsPad (a ∷ []) = (refl, (refl, tt))
padding-IsPad (a ∷ b ∷ []) = (refl, tt)
padding-IsPad (a ∷ b ∷ c ∷ bs) = padding-IsPad bs

-- Whatever the padding is, just the symbols are left.
pub size_real-encoded :
    (bs pads : Bytes)
    → All IsByte bs
    → All IsPad pads
    → size_real (symbols (sextets bs) ++ pads) (length (symbols (sextets bs) ++ pads))
      ≡ length (symbols (sextets bs))
size_real-encoded bs pads h k =
    size_real-pads (symbols (sextets bs)) pads (length pads) _ k (omega arith)
      (length-append (symbols (sextets bs)) pads)
    ∙ size_real-symbols (sextets bs) (length (symbols (sextets bs))) pads (sextets-lt bs h)
        (length-symbols (sextets bs))

pub decode_loop_fits :
    (bs dst : Bytes)
    → All IsByte bs
    → length bs ≤ length dst
    → decode_loop (symbols (sextets bs)) (record { written = []; room = dst })
      ≡ some (record { written = bs; room = drop (length bs) dst })
decode_loop_fits bs dst h room = decode_loop-symbols bs _ h ∙ puts_fits bs [] dst room
