-- ===== src/Base64/InPlace/Format.antt =====
-- What `base64_decode_fmt` decodes: the symbols of the text, with all else left out.
use liblcb.Base.{ℕ, suc, ◌+◌, ◌*◌, ◌/◌, ◌≤◌, ◌<◌, ◌≡◌, refl, ◌∙◌, arith}
use liblcb.Base.{
  some, [], ◌∷◌, ◌++◌, Bytes, All, IsByte, length, take-append, drop, le→ltb, ◌==◌, if◌then◌else◌,
  ok,
}
use liblcb.Base.{bind_ext, Bool-cases, inl, inr, length-append, length-drop, append-nil}
use liblcb.Base.Buffer.{Cursor, put, puts, puts_fits}
use liblcb.Base64.{mem, value, base64_decode}
use liblcb.Base64.Encode.{sextets, symbols}
use liblcb.Base64.RoundTrip.{base64_decode-symbols}
use liblcb.Base64.InPlace.{copy_loop, base64_en_copy, base64_decode_fmt}
use liblcb.Base64.InPlace.Aliasing.{decode_inplace-decode}

-- The symbols of a text.
abbrev pub symbols_of : Bytes → Bytes
symbols_of [] = []
symbols_of (b ∷ bs) = if value b == 64 then symbols_of bs else b ∷ symbols_of bs

copy_loop-symbols_of : (bs : Bytes) (w : Cursor) → copy_loop bs w ≡ puts w (symbols_of bs)
unfolding copy_loop puts
copy_loop-symbols_of [] w = refl
copy_loop-symbols_of (b ∷ bs) w = elim (Bool-cases (value b == 64)) [
  | inl e ↦ rw e (copy_loop-symbols_of bs w)
  | inr e ↦ rw e (bind_ext (put w b) _ _ (λ w'. copy_loop-symbols_of bs w'))
]

length-symbols_of : (bs : Bytes) → length (symbols_of bs) ≤ length bs
length-symbols_of [] = omega arith
length-symbols_of (b ∷ bs) = elim (Bool-cases (value b == 64)) [
  | inl e ↦ rw e (omega (arith, length-symbols_of bs))
  | inr e ↦ rw e (omega (arith, length-symbols_of bs))
]

en_copy-symbols_of :
    (src dst : Bytes)
    → length (symbols_of src) ≤ length dst
    → base64_en_copy (mem src) (some dst)
      ≡ some (record {
        status = ok;
        size_ret = some (length (symbols_of src));
        dst = some (symbols_of src ++ drop (length (symbols_of src)) dst);
      })
unfolding base64_en_copy
en_copy-symbols_of [] dst h = refl
en_copy-symbols_of (b ∷ bs) dst h = rw (
  copy_loop-symbols_of (b ∷ bs) (record { written = []; room = dst }),
  puts_fits (symbols_of (b ∷ bs)) [] dst h,
)

-- Let `dst` hold `dst_size` bytes, at least as many as `src`. `base64_decode_fmt` does what
-- `base64_decode` does on the symbols of `src`, with the rest of `src` left out, into `dst` with
-- those symbols at its start.
pub base64_decode_fmt-decode :
    (src dst : Bytes) (dst_size : ℕ)
    → length src ≤ dst_size
    → dst_size ≤ length dst
    → base64_decode_fmt (mem src) (some dst) dst_size
      ≡ base64_decode
          (mem (symbols_of src))
          (some (symbols_of src ++ drop (length (symbols_of src)) dst))
          dst_size
unfolding base64_decode_fmt
base64_decode_fmt-decode src dst dst_size le fits =
    let n : ℕ = length (symbols_of src) in
    let rest : Bytes = drop n dst in
    rw (
      le→ltb dst_size (length src) le,
      en_copy-symbols_of src dst (omega (arith, length-symbols_of src)),
      decode_inplace-decode (symbols_of src ++ rest) n dst_size
          (omega (arith, length-append (symbols_of src) rest)),
      take-append n (symbols_of src) rest refl,
    )

-- Let `text` be the base64 text of a non-empty `src` with anything but symbols put between, before
-- or behind its symbols, and `dst` hold `dst_size` bytes: as many as `text`, as many as `src`
-- rounded up to a multiple of 3, and one more than `src`. Then `base64_decode_fmt` of `text`
-- returns 0, reports the length of `src`, and puts `src` and a 0 byte at the start of `dst`.
pub base64_decode_fmt-encoded :
    (b : ℕ) (bs text dst : Bytes) (dst_size : ℕ)
    → All IsByte (b ∷ bs)
    → symbols_of text ≡ symbols (sextets (b ∷ bs))
    → length text ≤ dst_size
    → dst_size ≤ length dst
    → (length (b ∷ bs) + 2) / 3 * 3 ≤ dst_size
    → length (b ∷ bs) < length dst
    → (rest : Bytes) × (base64_decode_fmt (mem text) (some dst) dst_size
        ≡ some (record {
          status = ok;
          size_ret = some (length (b ∷ bs));
          dst = some ((b ∷ bs) ++ (0 ∷ rest));
        }))
base64_decode_fmt-encoded b bs text dst dst_size h clean le fits size room =
    let start : Bytes = symbols (sextets (b ∷ bs)) in
    let memory : Bytes = start ++ drop (length start) dst in
    let enough : length (b ∷ bs) < length memory =
      omega
        (arith, length-append start (drop (length start) dst), length-drop (length start) dst) in
    (
      drop (suc (length (b ∷ bs))) memory,
      base64_decode_fmt-decode text dst dst_size le fits
          ∙ rw clean (
              rw (append-nil start) at
                (base64_decode-symbols b bs [] h tt memory dst_size size enough)),
    )
