-- ===== src/Base64/Encode.antt =====
-- What `base64_encode` writes.
use liblcb.Base.{ℕ, suc, ◌+◌, ◌*◌, ◌/◌, ◌%◌, ◌^◌, ◌≤◌, ◌<◌, ◌≡◌, ◌≢◌, refl, sym, ap, ◌∙◌, arith}
use liblcb.Base.{some, none, [], ◌∷◌, ◌++◌, Bytes, All, IsByte, length, drop}
use liblcb.Base.{ok, append_assoc, bind_ext, Bool-cases, ==_iff, ◌==◌, inl, inr, false, le→ltb}
use liblcb.Base.{ltb, if◌then◌else◌, ◌-◌, map, subst}
use liblcb.Base.Bits.{tables_agree, tables_agree-eq}
use liblcb.Base.Buffer.{Cursor, puts, puts_fits, put_next, put_past_end, puts-append}
use liblcb.Base64.{
  base64_tbl_coding, mem, symbol, encode_loop, encoded_size, encode_to, base64_encode,
}
use liblcb.Base64.Tables.{index_2-eq, index_3-eq, index_4-eq, mask_30, mask_3c}

-- The indices below 64 of the symbols that carry the bits, in plain arithmetic.
abbrev pub sextets : Bytes → Bytes
sextets [] = []
sextets (a ∷ []) = a / 4 ∷ (a % 4 * 16) ∷ []
sextets (a ∷ b ∷ []) = a / 4 ∷ (a % 4 * 16 + b / 16) ∷ (b % 16 * 4) ∷ []
sextets (a ∷ b ∷ c ∷ bs) =
    a / 4 ∷ (a % 4 * 16 + b / 16) ∷ (b % 16 * 4 + c / 64) ∷ (c % 64) ∷ sextets bs

abbrev pub padding : Bytes → Bytes
padding [] = []
padding (a ∷ []) = b'=' ∷ b'=' ∷ []
padding (a ∷ b ∷ []) = b'=' ∷ []
padding (a ∷ b ∷ c ∷ bs) = padding bs

-- The text that the coding table gives, and its padding.
abbrev pub symbols : Bytes → Bytes
symbols [] = []
symbols (i ∷ is) = symbol i ∷ symbols is

abbrev pub encoded : Bytes → Bytes
encoded bs = symbols (sextets bs) ++ padding bs

-- The alphabet of RFC 4648, table 1, without the table of the code.
abbrev pub rfc_symbol : ℕ → ℕ
rfc_symbol i =
    if ltb i 26
    then b'A' + i
    else if ltb i 52
    then b'a' + (i - 26)
    else if ltb i 62
    then b'0' + (i - 52)
    else if i == 62
    then b'+'
    else b'/'

-- The base64 text of a byte string (RFC 4648).
abbrev pub rfc_text : Bytes → Bytes
rfc_text bs = map rfc_symbol (sextets bs) ++ padding bs

pub sextets-lt : (bs : Bytes) → All IsByte bs → All (λ i. i < 64) (sextets bs)
sextets-lt [] h = tt
sextets-lt (a ∷ []) h = omega arith
sextets-lt (a ∷ b ∷ []) h = omega arith
sextets-lt (a ∷ b ∷ c ∷ bs) h =
    (omega arith, (omega arith, (omega arith, (omega arith, sextets-lt bs h.1.1.1))))

symbol-rfc_symbol : (i : ℕ) → i < 64 → symbol i ≡ rfc_symbol i
unfolding tables_agree symbol base64_tbl_coding
symbol-rfc_symbol i lt = tables_agree-eq symbol rfc_symbol 64 i lt refl

symbols-rfc_symbol : (is : Bytes) → All (λ i. i < 64) is → symbols is ≡ map rfc_symbol is
symbols-rfc_symbol [] all = refl
symbols-rfc_symbol (i ∷ is) (lt, all) = rw (symbol-rfc_symbol i lt, symbols-rfc_symbol is all) refl

encoded-rfc_text : (bs : Bytes) → All IsByte bs → encoded bs ≡ rfc_text bs
encoded-rfc_text bs all =
    ap (λ t. t ++ padding bs) (symbols-rfc_symbol (sextets bs) (sextets-lt bs all))

encode_loop-encoded :
    (bs : Bytes) (w : Cursor) → All IsByte bs → encode_loop bs w ≡ puts w (encoded bs)
unfolding encode_loop
encode_loop-encoded [] w h = unfold puts in refl
encode_loop-encoded (a ∷ []) w h = rw (mask_30 a h.0)
encode_loop-encoded (a ∷ b ∷ []) w h = rw (index_2-eq a b h.0 h.1.0, mask_3c b h.1.0)
encode_loop-encoded (a ∷ b ∷ c ∷ bs) w h =
    let quad : Bytes =
      symbol (a / 4)
      ∷ symbol (a % 4 * 16 + b / 16)
      ∷ symbol (b % 16 * 4 + c / 64)
      ∷ symbol (c % 64)
      ∷ [] in
    rw (index_2-eq a b h.0 h.1.0, index_3-eq b c h.1.0 h.1.1.0, index_4-eq c h.1.1.0)
      (bind_ext (puts w quad) _ _ (λ w'. encode_loop-encoded bs w' h.1.1.1)
        ∙ sym (puts-append quad (encoded bs) w))

pub length-symbols : (is : Bytes) → length (symbols is) ≡ length is
length-symbols [] = refl
length-symbols (i ∷ is) = ap suc (length-symbols is)

pub length-sextets : (bs : Bytes) → length (sextets bs) ≡ (4 * length bs + 2) / 3
length-sextets [] = omega arith
length-sextets (a ∷ []) = omega arith
length-sextets (a ∷ b ∷ []) = omega arith
length-sextets (a ∷ b ∷ c ∷ bs) = omega (arith, length-sextets bs)

pub length-encoded : (bs : Bytes) → length (encoded bs) ≡ (length bs + 2) / 3 * 4
length-encoded [] = omega arith
length-encoded (a ∷ []) = omega arith
length-encoded (a ∷ b ∷ []) = omega arith
length-encoded (a ∷ b ∷ c ∷ bs) = omega (arith, length-encoded bs)

encoded_size-eq : (n : ℕ) → n < 2 ^ 62 → encoded_size n ≡ (n + 2) / 3 * 4
unfolding encoded_size
encoded_size-eq n h = elim (Bool-cases (n / 3 * 3 == n)) [
  | inl e ↦ rw e (omega (arith, (==_iff (n / 3 * 3) n).0 e))
  | inr e ↦ rw e (omega (arith, differs e))
]
  where
    differs : (n / 3 * 3 == n) ≡ false → n / 3 * 3 ≢ n
    differs e = ground arith

pub encoded_size-encoded :
    (bs : Bytes) → length bs < 2 ^ 62 → encoded_size (length bs) ≡ length (encoded bs)
encoded_size-encoded bs h = encoded_size-eq (length bs) h ∙ sym (length-encoded bs)

module _ (bs dst : Bytes) (h : All IsByte bs) where
  encode_loop_fits :
      length (encoded bs) ≤ length dst
      → encode_loop bs (record { written = []; room = dst })
        ≡ some (record { written = encoded bs; room = drop (length (encoded bs)) dst })
  encode_loop_fits room = encode_loop-encoded bs _ h ∙ puts_fits (encoded bs) [] dst room

  encode_to-encoded :
      length bs < 2 ^ 62
      → length (encoded bs) < length dst
      → encode_to bs dst
        ≡ some (record {
          status = ok;
          size_ret = some (length (encoded bs));
          dst = some (encoded bs ++ (0 ∷ drop (suc (length (encoded bs))) dst));
        })
  unfolding encode_to
  encode_to-encoded small room = rw (
    encode_loop_fits (omega arith),
    put_next (encoded bs) dst (length (encoded bs)) 0 room,
    encoded_size-encoded bs small,
    append_assoc (encoded bs) (0 ∷ []) (drop (suc (length (encoded bs))) dst),
  )

  encode_to_overflow : length dst ≡ length (encoded bs) → encode_to bs dst ≡ none
  unfolding encode_to
  encode_to_overflow exact = rw (
    encode_loop_fits (omega arith),
    put_past_end (encoded bs) dst (length (encoded bs)) 0 (omega arith),
  )

-- What is written, for a text that is known to be that of the coding table.
abbrev Writes : Bytes → Bytes → ℕ → Bytes → Type 0
Writes src dst dst_size text =
    length text ≤ dst_size
    → length text < length dst
    → base64_encode (mem src) (some dst) dst_size
      ≡ some (record {
        status = ok;
        size_ret = some (length text);
        dst = some (text ++ (0 ∷ drop (suc (length text)) dst));
      })

pub base64_encode_text :
    (b : ℕ) (bs dst : Bytes) (dst_size : ℕ)
    → All IsByte (b ∷ bs)
    → length (b ∷ bs) < 2 ^ 62
    → Writes (b ∷ bs) dst dst_size (encoded (b ∷ bs))
unfolding base64_encode
base64_encode_text b bs dst dst_size h small size room =
    rw (encoded_size-encoded (b ∷ bs) small, le→ltb dst_size (length (encoded (b ∷ bs))) size)
      (encode_to-encoded (b ∷ bs) dst h small room)

-- Let `src` be non-empty, below 2 ^ 62 bytes, and `dst` hold a byte more than the text needs.
-- `base64_encode` returns 0, reports the length of the text, writes the base64 text of `src`
-- (RFC 4648) and a 0 byte, and leaves the rest of `dst` alone.
pub base64_encode-encoded :
    (b : ℕ) (bs dst : Bytes) (dst_size : ℕ)
    → All IsByte (b ∷ bs)
    → length (b ∷ bs) < 2 ^ 62
    → length (rfc_text (b ∷ bs)) ≤ dst_size
    → length (rfc_text (b ∷ bs)) < length dst
    → base64_encode (mem (b ∷ bs)) (some dst) dst_size
      ≡ some (record {
        status = ok;
        size_ret = some (length (rfc_text (b ∷ bs)));
        dst = some (rfc_text (b ∷ bs) ++ (0 ∷ drop (suc (length (rfc_text (b ∷ bs)))) dst));
      })
base64_encode-encoded b bs dst dst_size h small =
    subst (Writes (b ∷ bs) dst dst_size) (encoded-rfc_text (b ∷ bs) h)
      (base64_encode_text b bs dst dst_size h small)

-- A buffer of exactly the size that the function asks for is too small: the size check passes, and
-- the 0 byte behind the text is written past the end.
pub base64_encode_overflow :
    (b : ℕ) (bs dst : Bytes)
    → All IsByte (b ∷ bs)
    → length (b ∷ bs) < 2 ^ 62
    → length dst ≡ encoded_size (length (b ∷ bs))
    → base64_encode (mem (b ∷ bs)) (some dst) (length dst) ≡ none
unfolding base64_encode
base64_encode_overflow b bs dst h small exact =
    rw (← exact, le→ltb (length dst) (length dst) (omega arith))
      (encode_to_overflow (b ∷ bs) dst h (exact ∙ encoded_size-encoded (b ∷ bs) small))
