-- ===== src/Base64/Tests.antt =====
-- Runs of the base64 functions, and the theorems at concrete inputs.
use liblcb.Base.{ℕ, ◌≡◌, refl, arith, some, none, [], ◌∷◌, ◌++◌, Bytes}
use liblcb.Base.{ok, enobufs, einval, take, replicate, codes}
use liblcb.Base.Buffer.{put, puts}
use liblcb.Base64.{null, mem, base64_tbl_coding, base64_tbl_decoding, symbol, value}
use liblcb.Base64.{encode_loop, encoded_size, encode_to, base64_encode}
use liblcb.Base64.{decode_loop, size_real, decoded_size, decode_to, base64_decode}
use liblcb.Base64.Encode.{rfc_text, base64_encode-encoded, base64_encode_overflow}
use liblcb.Base64.RoundTrip.{base64_decode-symbols, base64_decode_overflow, base64_decode-encode}
use liblcb.Base64.InPlace.{
  decode_inplace, base64_decode_fmt, inplace_loop, inplace_tail, base64_en_copy, copy_loop,
}
use liblcb.Base64.InPlace.Aliasing.{decode_inplace-decode}
use liblcb.Base64.InPlace.Format.{base64_decode_fmt-decode, base64_decode_fmt-encoded}

-- `nf`-ready sets: what a run has to compute through.
abbrev foob : Bytes
foob = codes "foob"

abbrev room : ℕ → Bytes
room n = replicate n 7

encode_foob :
    base64_encode (mem foob) (some (room 10)) 9
    ≡ some
        (record { status = ok; size_ret = some 8; dst = some (codes "Zm9vYg==" ++ (0 ∷ 7 ∷ [])) })
unfolding base64_encode encode_to encode_loop encoded_size puts put symbol base64_tbl_coding
encode_foob = refl

decode_foob :
    base64_decode (mem (codes "Zm9vYg==")) (some (room 6)) 6
    ≡ some (record { status = ok; size_ret = some 4; dst = some (foob ++ (0 ∷ 7 ∷ [])) })
unfolding base64_decode decode_to decode_loop size_real decoded_size puts put value
    base64_tbl_decoding
decode_foob = refl

decode_errors :
    (base64_decode (mem (codes "Z==")) (some (room 6)) 6
      ≡ some (record { status = einval; size_ret = none; dst = some (room 6) }))
    × (base64_decode (mem (codes "Zm9v")) (some (room 2)) 2
        ≡ some (record { status = enobufs; size_ret = some 3; dst = some (room 2) }))
    × (base64_decode (null 4) (some (room 2)) 2
        ≡ some (record { status = einval; size_ret = none; dst = some (room 2) }))
unfolding base64_decode decode_to decode_loop size_real decoded_size puts put value
    base64_tbl_decoding
decode_errors = (refl, refl, refl)

decode_fmt_junk :
    base64_decode_fmt (mem (codes "Zm@9v\n")) (some (room 6)) 6
    ≡ some (record { status = ok; size_ret = some 3; dst = some (codes "foo" ++ (0 ∷ 7 ∷ 7 ∷ [])) })
unfolding base64_decode_fmt base64_en_copy copy_loop decode_inplace inplace_loop inplace_tail
    size_real decoded_size put value base64_tbl_decoding
decode_fmt_junk = refl

base64_encode-encoded_example :
    base64_encode (mem foob) (some (room 10)) 9
    ≡ some (record { status = ok; size_ret = some 8; dst = some (rfc_text foob ++ (0 ∷ 7 ∷ [])) })
base64_encode-encoded_example =
    base64_encode-encoded b'f' (codes "oob") (room 10) 9 (omega arith) (omega arith) (omega arith)
      (omega arith)

base64_encode_overflow_example : base64_encode (mem foob) (some (room 8)) 8 ≡ none
unfolding encoded_size
base64_encode_overflow_example =
    base64_encode_overflow b'f' (codes "oob") (room 8) (omega arith) (omega arith) refl

base64_decode-symbols_example :
    base64_decode (mem (codes "Zm9vYg=")) (some (room 6)) 6
    ≡ some (record { status = ok; size_ret = some 4; dst = some (foob ++ (0 ∷ 7 ∷ [])) })
unfolding symbol base64_tbl_coding
base64_decode-symbols_example =
    base64_decode-symbols b'f' (codes "oob") (b'=' ∷ []) (omega arith) (refl, tt) (room 6) 6
      (omega arith) (omega arith)

base64_decode_overflow_example : base64_decode (mem (codes "Zm9v")) (some (room 3)) 3 ≡ none
unfolding symbol base64_tbl_coding decoded_size
base64_decode_overflow_example =
    base64_decode_overflow b'f' (codes "oo") [] (omega arith) tt (room 3) refl refl

base64_decode-encode_example :
    (n : ℕ) × (dst' : Bytes) × (base64_encode (mem foob) (some (room 12)) 12
      ≡ some (record { status = ok; size_ret = some n; dst = some dst' }))
    × (base64_decode (mem (take n dst')) (some (room 7)) 7
        ≡ some (record { status = ok; size_ret = some 4; dst = some (foob ++ (0 ∷ 7 ∷ 7 ∷ [])) }))
base64_decode-encode_example =
    base64_decode-encode b'f' (codes "oob") (room 12) (room 7) (omega arith) (omega arith)
      (omega arith) (omega arith)

decode_inplace-decode_example :
    decode_inplace (codes "Zm9v") 4 4 ≡ base64_decode (mem (codes "Zm9v")) (some (codes "Zm9v")) 4
decode_inplace-decode_example = decode_inplace-decode (codes "Zm9v") 4 4 (omega arith)

base64_decode_fmt-decode_example :
    base64_decode_fmt (mem (codes "Zm@9v\n")) (some (room 6)) 6
    ≡ base64_decode (mem (codes "Zm9v")) (some (codes "Zm9v" ++ (7 ∷ 7 ∷ []))) 6
unfolding value base64_tbl_decoding
base64_decode_fmt-decode_example =
    base64_decode_fmt-decode (codes "Zm@9v\n") (room 6) 6 (omega arith) (omega arith)

base64_decode_fmt-encoded_example :
    (rest : Bytes) × (base64_decode_fmt (mem (codes "Zm@9v\n")) (some (room 6)) 6
      ≡ some (record { status = ok; size_ret = some 3; dst = some (codes "foo" ++ (0 ∷ rest)) }))
unfolding value base64_tbl_decoding symbol base64_tbl_coding
base64_decode_fmt-encoded_example =
    base64_decode_fmt-encoded b'f' (codes "oo") (codes "Zm@9v\n") (room 6) 6 (omega arith) refl
      (omega arith) (omega arith) (omega arith) (omega arith)
