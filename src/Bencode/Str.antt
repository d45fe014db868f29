-- ===== src/Bencode/Str.antt =====
-- src/utils/bt_encode.c: byte strings.
use liblcb.Base.{
  ℕ, suc, ◌+◌, ◌-◌, ◌^◌, ◌<◌, ◌≤◌, ◌≡◌, refl, arith, some, [], ◌∷◌, ◌++◌, Bytes, All, length, wrap,
  ◌==◌, ltb, leb, true, false, if◌then◌else◌,
}
use liblcb.Base.{length-append, take-append, ebadmsg}
use liblcb.Memory.{mem_chr}
use liblcb.Num.Parse.{str2usize}
use liblcb.Bencode.{
  Result, found, failed, Node, node_str, bt_en_decode, decode_text, decode_str, is_digit,
}

abbrev pub IsDigit : ℕ → Type 0
IsDigit b = (48 ≤ b) × (b ≤ 57)

-- A byte string as it is encoded, with what stands behind it.
abbrev pub encoded : ℕ → Bytes → Bytes → Bytes → Bytes
encoded d ds s more = d ∷ (ds ++ (b':' ∷ (s ++ more)))

-- What decoding it comes to.
abbrev pub string_result : ℕ → Bytes → Bytes → Bytes → Result Node
string_result base ds s [] = failed ebadmsg
string_result base ds s (b ∷ more) =
    found (node_str (base + length ds + 2) (length s)) (length ds + 2 + length s)

mem_chr-colon :
    (ds rest : Bytes) → All IsDigit ds → mem_chr (ds ++ (b':' ∷ rest)) b':' ≡ some (length ds)
unfolding mem_chr
mem_chr-colon [] rest h = refl
mem_chr-colon (d ∷ ds) rest h = rw (mem_chr-colon ds rest h.1) (ground (arith, h.0))

range_test :
    (base total : ℕ) (ds s more : Bytes)
    → total ≡ suc (length ds + suc (length s + length more))
    → base + total < 2 ^ 64
    → (if leb (base + total) (wrap (length s + (base + suc (length ds) + 1)))
        then failed ebadmsg
        else found
            (node_str (base + suc (length ds) + 1) (length s))
            (wrap (length s + (suc (length ds) + 1))))
      ≡ string_result base ds s more
range_test base total ds s [] ht hb = ground arith
range_test base total ds s (b ∷ more) ht hb = ground arith

decode_str-encoded :
    (base d : ℕ) (ds s more : Bytes)
    → All IsDigit (d ∷ ds)
    → str2usize (some (d ∷ ds)) ≡ length s
    → base + length (encoded d ds s more) < 2 ^ 64
    → decode_str (base + length (encoded d ds s more)) base (encoded d ds s more)
      ≡ string_result base ds s more
unfolding decode_str
decode_str-encoded base d ds s more h hn hb =
    rw
      (
        decode_str,
        mem_chr-colon ds (s ++ more) h.1,
        take-append (length ds) ds (b':' ∷ (s ++ more)) refl,
        hn,
      )
      (range_test base (length (encoded d ds s more)) ds s more
        (omega (arith, length-append ds (b':' ∷ (s ++ more)), length-append s more)) hb)

-- A byte string is decoded to its place and its length, and the call ends behind it, when a byte
-- follows it; at the very end of the buffer the same string is refused. Its head is decimal digits
-- that read as its length, and the buffer's addresses are below 2 ^ 64.
pub bt_en_decode_string :
    (fuel base d : ℕ) (ds s more : Bytes)
    → All IsDigit (d ∷ ds)
    → str2usize (some (d ∷ ds)) ≡ length s
    → base + length (encoded d ds s more) < 2 ^ 64
    → bt_en_decode (suc fuel) base (encoded d ds s more) base ≡ string_result base ds s more
unfolding bt_en_decode decode_text
bt_en_decode_string fuel base d ds s more h hn hb =
    let at : base - base ≡ 0 = omega arith in
    let total = length (encoded d ds s more) in
    let inside : (base == base + total) ≡ false = ground arith in
    let begun : ltb base base ≡ false = ground arith in
    let ended : ltb (base + total) base ≡ false = ground arith in
    let digit : is_digit d ≡ true = ground (arith, h.0) in
    rw (at, inside, begun, ended, digit) (decode_str-encoded base d ds s more h hn hb)
