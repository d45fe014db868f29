-- ===== src/Base64/RoundTrip.antt =====
-- Decoding what was encoded.
use liblcb.Base.{ℕ, suc, ◌+◌, ◌*◌, ◌/◌, ◌%◌, ◌^◌, ◌≤◌, ◌<◌, ◌≡◌, ◌≢◌, refl, ap, ◌∙◌, arith}
use liblcb.Base.{
  some, none, [], ◌∷◌, ◌++◌, Bytes, All, IsByte, length, drop, take, take-append, ok, append_assoc,
}
use liblcb.Base.{==_iff, ◌==◌, Bool-cases, inl, inr, false}
use liblcb.Base.Buffer.{put_next, put_past_end}
use liblcb.Base64.{mem, size_real, decoded_size, decode_to, base64_encode, base64_decode}
use liblcb.Base64.Encode.{
  sextets, symbols, padding, encoded, length-sextets, length-symbols, length-encoded,
  base64_encode_text,
}
use liblcb.Base64.Decode.{IsPad, padding-IsPad, size_real-encoded, decode_loop_fits}

decoded_size-eq : (n : ℕ) → decoded_size n ≡ (n + 3) / 4 * 3
unfolding decoded_size
decoded_size-eq n = elim (Bool-cases (n / 4 * 4 == n)) [
  | inl e ↦ rw e (omega (arith, (==_iff (n / 4 * 4) n).0 e))
  | inr e ↦ rw e (omega (arith, differs e))
]
  where
    differs : (n / 4 * 4 == n) ≡ false → n / 4 * 4 ≢ n
    differs e = ground arith

decode_to-symbols :
    (bs dst : Bytes)
    → All IsByte bs
    → length bs < length dst
    → decode_to (symbols (sextets bs)) dst
      ≡ some (record {
        status = ok;
        size_ret = some (length bs);
        dst = some (bs ++ (0 ∷ drop (suc (length bs)) dst));
      })
unfolding decode_to
decode_to-symbols bs dst h room = rw (
  decode_loop_fits bs dst h (omega arith),
  put_next bs dst (length bs) 0 room,
  append_assoc bs (0 ∷ []) (drop (suc (length bs)) dst),
)

decode_to_overflow :
    (bs dst : Bytes)
    → All IsByte bs
    → length dst ≡ length bs
    → decode_to (symbols (sextets bs)) dst ≡ none
unfolding decode_to
decode_to_overflow bs dst h full =
    rw (decode_loop_fits bs dst h (omega arith), put_past_end bs dst (length bs) 0 (omega arith))

length_enough :
    (bs : Bytes) → decoded_size (length (symbols (sextets bs))) ≡ (length bs + 2) / 3 * 3
length_enough bs = decoded_size-eq _ ∙ omega (arith, length-symbols (sextets bs), length-sextets bs)

-- The checks of `base64_decode` passed.
decode_mem :
    (src dst : Bytes) (dst_size real : ℕ)
    → size_real src (length src) ≡ real
    → 2 ≤ real
    → decoded_size (length (take real src)) ≤ dst_size
    → base64_decode (mem src) (some dst) dst_size ≡ decode_to (take real src) dst
unfolding base64_decode
decode_mem src dst dst_size real e two fits = rw e (ground arith)

module _ (b : ℕ) (bs pads : Bytes) (h : All IsByte (b ∷ bs)) (k : All IsPad pads) where
  decode-symbols :
      (dst : Bytes) (dst_size : ℕ)
      → (length (b ∷ bs) + 2) / 3 * 3 ≤ dst_size
      → base64_decode (mem (symbols (sextets (b ∷ bs)) ++ pads)) (some dst) dst_size
        ≡ decode_to (symbols (sextets (b ∷ bs))) dst
  decode-symbols dst dst_size size =
      let text : Bytes = symbols (sextets (b ∷ bs)) in
      let cut : take (length text) (text ++ pads) ≡ text =
        take-append (length text) text pads refl in
      decode_mem (text ++ pads) dst dst_size (length text) (size_real-encoded (b ∷ bs) pads h k)
        (omega (arith, length-symbols (sextets (b ∷ bs)), length-sextets (b ∷ bs)))
        (rw (cut, length_enough (b ∷ bs)) size)
      ∙ ap (λ t. decode_to t dst) cut

  -- Let `text` be the base64 symbols of a non-empty `src` with any number of "=" behind them, and
  -- `dst_size` be at least the size of `src` rounded up to a multiple of 3. If `dst` has a byte more
  -- than `src`, `base64_decode` returns 0, reports the length of `src`, writes `src` and a 0 byte,
  -- and leaves the rest of `dst` alone.
  pub base64_decode-symbols :
      (dst : Bytes) (dst_size : ℕ)
      → (length (b ∷ bs) + 2) / 3 * 3 ≤ dst_size
      → length (b ∷ bs) < length dst
      → base64_decode (mem (symbols (sextets (b ∷ bs)) ++ pads)) (some dst) dst_size
        ≡ some (record {
          status = ok;
          size_ret = some (length (b ∷ bs));
          dst = some ((b ∷ bs) ++ (0 ∷ drop (suc (length (b ∷ bs))) dst));
        })
  base64_decode-symbols dst dst_size size room =
      decode-symbols dst dst_size size ∙ decode_to-symbols (b ∷ bs) dst h room

  -- A buffer of exactly the size that is asked for is too small, when that is the size of `src`: the
  -- size check passes, and the 0 byte behind the data is written past the end.
  pub base64_decode_overflow :
      (dst : Bytes)
      → length (b ∷ bs) % 3 ≡ 0
      → length dst ≡ decoded_size (length (symbols (sextets (b ∷ bs))))
      → base64_decode (mem (symbols (sextets (b ∷ bs)) ++ pads)) (some dst) (length dst) ≡ none
  base64_decode_overflow dst whole exact =
      let full : length dst ≡ length (b ∷ bs) = exact ∙ length_enough (b ∷ bs) ∙ omega arith in
      decode-symbols dst (length dst) (omega arith) ∙ decode_to_overflow (b ∷ bs) dst h full

-- What `base64_encode` stored, as long as it reported, `base64_decode` turns back into `src`. Let
-- `src` be non-empty, below 2 ^ 62 bytes, and both buffers have a byte more than their call asks for.
pub base64_decode-encode :
    (b : ℕ) (bs dst out : Bytes)
    → All IsByte (b ∷ bs)
    → length (b ∷ bs) < 2 ^ 62
    → (length (b ∷ bs) + 2) / 3 * 4 < length dst
    → (length (b ∷ bs) + 2) / 3 * 3 < length out
    → (n : ℕ) × (dst' : Bytes) × (base64_encode (mem (b ∷ bs)) (some dst) (length dst)
        ≡ some (record { status = ok; size_ret = some n; dst = some dst' }))
      × (base64_decode (mem (take n dst')) (some out) (length out)
          ≡ some (record {
            status = ok;
            size_ret = some (length (b ∷ bs));
            dst = some ((b ∷ bs) ++ (0 ∷ drop (suc (length (b ∷ bs))) out));
          }))
base64_decode-encode b bs dst out h small room space =
    let n : ℕ = length (encoded (b ∷ bs)) in
    let tail : Bytes = 0 ∷ drop (suc n) dst in
    let fits : n < length dst = rw (length-encoded (b ∷ bs)) room in
    (
      n,
      encoded (b ∷ bs) ++ tail,
      base64_encode_text b bs dst (length dst) h small (omega arith) fits,
      rw (take-append n (encoded (b ∷ bs)) tail refl) (
          base64_decode-symbols b bs (padding (b ∷ bs)) h (padding-IsPad (b ∷ bs)) out (length out)
            (omega arith) (omega arith)),
    )
