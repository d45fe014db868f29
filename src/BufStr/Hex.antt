-- ===== src/BufStr/Hex.antt =====
-- From bytes to hexadecimal text and back, in src/utils/buf_str.c.
use liblcb.Base.{ℕ, ◌+◌, ◌-◌, ◌*◌, ◌/◌, ◌^◌, ◌≤◌, ◌<◌, ◌≡◌, refl, sym, ap, ◌∙◌, arith, inl, inr}
use liblcb.Base.{Option, none, some, Option-cases, [], ◌∷◌, ◌++◌, append_assoc, append-nil, Bytes}
use liblcb.Base.{Bool, true, false, if◌then◌else◌, IsByte, All, length, take, drop, replicate}
use liblcb.Base.{ltb, wrap, bind_ext, ◌>>=◌, ok, length-replicate, take-append}
use liblcb.Base.{length-drop, le→ltb, drop-all}
use liblcb.Base.Bits.{tables_agree, tables_agree-eq}
use liblcb.Base.Buffer.{Cursor, put, puts, puts_fits, puts-append}
use liblcb.Base64.{Src, null, mem}
use liblcb.Num.Hex.{hex_digit}
use liblcb.BufStr.{
  Converted, converted, end_text, push_nibble, hex_tbl, high_digit, low_digit, hex_loop, hex_done,
  convert_hex, cvt_hex2bin, bin_loop, convert_bin, cvt_bin2hex,
}

-- The two digits of each byte.
abbrev pub hex_text : Bytes → Bytes
hex_text [] = []
hex_text (b ∷ bs) = high_digit b ∷ low_digit b ∷ hex_text bs

-- The output up to the size that is reported.
abbrev cut : Option ℕ → Src → Src
cut none out = out
cut (some n) (null m) = null m
cut (some n) (mem bs) = mem (take n bs)

abbrev pub stored : Converted → Src
stored r = cut r.size_ret r.out

length-hex_text : (bs : Bytes) → length (hex_text bs) ≡ 2 * length bs
length-hex_text [] = refl
length-hex_text (b ∷ bs) = omega (arith, length-hex_text bs)

-- What the two digits of a byte are read as, and 256 when one of them is no digit.
reread_low : ℕ → Option ℕ → ℕ
reread_low x none = 256
reread_low x (some y) = push_nibble (push_nibble 0 x) y

reread_high : Option ℕ → Option ℕ → ℕ
reread_high none low = 256
reread_high (some x) low = reread_low x low

abbrev reread : ℕ → ℕ
reread b = reread_high (hex_digit (high_digit b)) (hex_digit (low_digit b))

all_bytes_reread : tables_agree reread (λ b. b) 256 ≡ true
unfolding tables_agree hex_digit high_digit low_digit hex_tbl reread_high reread_low
all_bytes_reread = refl

no_high : {h : Option ℕ} → h ≡ none → (low : Option ℕ) → reread_high h low ≡ 256
unfolding reread_high
no_high e low = rw e refl

one_digit : {h l : Option ℕ} {x : ℕ} → h ≡ some x → l ≡ none → reread_high h l ≡ 256
unfolding reread_high reread_low
one_digit e e' = rw (e, e') refl

two_digits :
    {h l : Option ℕ} {x y : ℕ}
    → h ≡ some x
    → l ≡ some y
    → reread_high h l ≡ push_nibble (push_nibble 0 x) y
unfolding reread_high reread_low
two_digits e e' = rw (e, e') refl

digits_read :
    (b : ℕ)
    → b < 256
    → (x : ℕ) × (y : ℕ) × (hex_digit (high_digit b) ≡ some x)
      × (hex_digit (low_digit b) ≡ some y)
      × (push_nibble (push_nibble 0 x) y ≡ b)
unfolding reread_high reread_low
digits_read b lt =
    let same = tables_agree-eq reread (λ n. n) 256 b lt all_bytes_reread in
    elim (Option-cases (hex_digit (high_digit b))) [
      | inl e ↦ absurd (omega (arith, lt, sym same ∙ no_high e (hex_digit (low_digit b))))
      | inr (x, e) ↦ elim (Option-cases (hex_digit (low_digit b))) [
        | inl e' ↦ absurd (omega (arith, lt, sym same ∙ one_digit e e'))
        | inr (y, e') ↦ (x, y, e, e', sym (two_digits e e') ∙ same)
      ]
    ]

-- The text of some bytes is read as these bytes.
hex_loop-hex_text :
    (bs w r : Bytes)
    → All IsByte bs
    → length bs ≤ length r
    → hex_loop (hex_text bs) 0 0 (record { written = w; room = r })
      ≡ (ok, record { written = w ++ bs; room = drop (length bs) r })
unfolding hex_loop put
hex_loop-hex_text [] w r all le = rw append-nil refl
hex_loop-hex_text (b ∷ bs) w [] all le = absurd (omega arith)
hex_loop-hex_text (b ∷ bs) w (_ ∷ r) (is_byte, all) le =
    let (x, y, ex, ey, e) = digits_read b is_byte in
    rw (hex_loop, ex, ey, e)
      (hex_loop-hex_text bs (w ++ (b ∷ [])) r all (omega arith) ∙ rw append_assoc refl)

bin_loop-hex_text : (bs : Bytes) (w : Cursor) → bin_loop bs w ≡ puts w (hex_text bs)
unfolding bin_loop puts
bin_loop-hex_text [] w = refl
bin_loop-hex_text (b ∷ bs) w =
    bind_ext (puts w (high_digit b ∷ low_digit b ∷ [])) (bin_loop bs) (λ w'. puts w' (hex_text bs))
      (λ w'. bin_loop-hex_text bs w')
    ∙ sym (puts-append (high_digit b ∷ low_digit b ∷ []) (hex_text bs) w)

stored-end_text :
    (t r : Bytes) (size : ℕ)
    → size ≡ length t + length r
    → stored (converted size (end_text (record { written = t; room = r }))) ≡ mem t
stored-end_text t [] size e = ap mem (take-append (size - 0) t [] (omega (arith, e)))
stored-end_text t (x ∷ r) size e =
    ap mem (take-append (size - length (x ∷ r)) t (0 ∷ r) (omega (arith, e)))

-- Into room that is large enough, `cvt_bin2hex` writes the two digits of each byte.
cvt_bin2hex-hex_text :
    (b : ℕ) (bs hex : Bytes)
    → 2 * length (b ∷ bs) ≤ length hex
    → length (b ∷ bs) < 2 ^ 63
    → cvt_bin2hex (mem (b ∷ bs)) true (mem hex)
      ≡ some (
          converted (length hex) (
            end_text
              (record { written = hex_text (b ∷ bs); room = drop (2 * length (b ∷ bs)) hex })))
unfolding cvt_bin2hex convert_bin
cvt_bin2hex-hex_text b bs hex fits small =
    let no_wrap : wrap (2 * length (b ∷ bs)) ≡ 2 * length (b ∷ bs) = omega arith in
    let text_fits : length (hex_text (b ∷ bs)) ≤ length hex =
      omega (arith, length-hex_text (b ∷ bs)) in
    rw
      (
        le→ltb (length hex) 2 (omega arith),
        no_wrap,
        le→ltb (length hex) (2 * length (b ∷ bs)) fits,
        bin_loop-hex_text (b ∷ bs) (record { written = []; room = hex }),
        puts_fits (hex_text (b ∷ bs)) [] hex text_fits,
      )
      (ap
        (λ n. some (
          converted (length hex)
            (end_text (record { written = hex_text (b ∷ bs); room = drop n hex }))))
        (length-hex_text (b ∷ bs)))

-- What `cvt_hex2bin` leaves for a text of `bs`.
abbrev pub decoded : Bool → Bytes → Bytes → Converted
decoded auto bs dst = record {
  status = ok;
  size_ret = some (if auto then length dst else length bs);
  out = mem (bs ++ (if auto then replicate (length dst - length bs) 0 else drop (length bs) dst));
}

clear_room :
    (w r : Bytes)
    → puts (record { written = w; room = r }) (replicate (length r) 0)
      ≡ some (record { written = w ++ replicate (length r) 0; room = [] })
clear_room w r =
    let same = length-replicate {A = ℕ} (length r) 0 in
    puts_fits (replicate (length r) 0) w r (omega (arith, same))
    ∙ ap (λ r'. some (record { written = w ++ replicate (length r) 0; room = r' }))
        (drop-all (length (replicate (length r) 0)) r (omega (arith, same)))

hex_done-decoded :
    (auto : Bool) (bs dst : Bytes)
    → length bs ≤ length dst
    → hex_done auto (length dst) (ok, record { written = bs; room = drop (length bs) dst })
      ≡ some (decoded auto bs dst)
unfolding hex_done
hex_done-decoded true bs dst fits =
    rw (clear_room bs (drop (length bs) dst), length-drop (length bs) dst, append-nil)
      (ap
        (λ n. some (record {
          status = ok;
          size_ret = some n;
          out = mem (bs ++ replicate (length dst - length bs) 0);
        }))
        (omega arith))
hex_done-decoded false bs dst fits = rw (length-drop (length bs) dst) (
    ap
      (λ n.
        some (record { status = ok; size_ret = some n; out = mem (bs ++ drop (length bs) dst) }))
      (omega arith))

cvt_hex2bin-hex_text :
    (auto : Bool) (b : ℕ) (bs dst : Bytes)
    → All IsByte (b ∷ bs)
    → length (b ∷ bs) ≤ length dst
    → cvt_hex2bin (mem (hex_text (b ∷ bs))) auto (mem dst) ≡ some (decoded auto (b ∷ bs) dst)
unfolding cvt_hex2bin convert_hex
cvt_hex2bin-hex_text auto b bs dst all fits =
    let texts : ltb (length dst) (length (hex_text (b ∷ bs)) / 2) ≡ false =
      le→ltb (length dst) (length (hex_text (b ∷ bs)) / 2)
        (omega (arith, length-hex_text (b ∷ bs))) in
    rw texts (
      ap (hex_done auto (length dst)) (hex_loop-hex_text (b ∷ bs) [] dst all fits)
      ∙ hex_done-decoded auto (b ∷ bs) dst fits)

-- Bytes that `cvt_bin2hex` has turned into text, with `auto_out_size` set and room for two digits
-- of each byte, are got back by `cvt_hex2bin` from the text of the size reported, into any output
-- that is large enough: it starts with them, and behind them it is cleared if `auto_out_size` is
-- set in that call, and as before if not. The size reported is that of the whole output, and the
-- number of the bytes.
pub cvt_hex2bin-cvt_bin2hex :
    (b : ℕ) (bs hex dst : Bytes) (auto : Bool)
    → All IsByte (b ∷ bs)
    → 2 * length (b ∷ bs) ≤ length hex
    → length (b ∷ bs) < 2 ^ 63
    → length (b ∷ bs) ≤ length dst
    → (cvt_bin2hex (mem (b ∷ bs)) true (mem hex) >>= λ r. cvt_hex2bin (stored r) auto (mem dst))
      ≡ some (decoded auto (b ∷ bs) dst)
cvt_hex2bin-cvt_bin2hex b bs hex dst auto all fits small enough =
    let size : length hex ≡ length (hex_text (b ∷ bs)) + length (drop (2 * length (b ∷ bs)) hex) =
      omega (arith, length-hex_text (b ∷ bs), length-drop (2 * length (b ∷ bs)) hex) in
    ap (λ o. o >>= λ r. cvt_hex2bin (stored r) auto (mem dst))
      (cvt_bin2hex-hex_text b bs hex fits small)
    ∙ ap (λ src. cvt_hex2bin src auto (mem dst))
        (stored-end_text (hex_text (b ∷ bs)) (drop (2 * length (b ∷ bs)) hex) (length hex) size)
    ∙ cvt_hex2bin-hex_text auto b bs dst all enough
