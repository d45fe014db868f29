-- ===== src/BufStr/Xor.antt =====
-- The XOR of buffers in src/utils/buf_str.c.
use liblcb.Base.{ℕ, ◌≡◌, refl, ap, ◌∙◌, [], ◌∷◌, Bytes}
use Prim.Native.Nat.{bit_xor}
use liblcb.Base.Xor.{bit_xor_assoc, bit_xor_self, bit_xor-zero}
use liblcb.Base64.{Src, null, mem}
use liblcb.BufStr.{xor_loop, memxorbuf}

bit_xor_twice : (d x : ℕ) → bit_xor (bit_xor d x) x ≡ d
bit_xor_twice d x = bit_xor_assoc d x x ∙ rw (bit_xor_self x) (bit_xor-zero d)

xor_loop_twice : (s : ℕ) (ss dst left : Bytes) → xor_loop s ss (xor_loop s ss dst left) left ≡ dst
unfolding xor_loop
xor_loop_twice s ss [] left = refl
xor_loop_twice s ss (d ∷ ds) [] = rw (bit_xor_twice d s) (ap (d ∷◌) (xor_loop_twice s ss ds ss))
xor_loop_twice s ss (d ∷ ds) (x ∷ xs) =
    rw (bit_xor_twice d x) (ap (d ∷◌) (xor_loop_twice s ss ds xs))

-- A second `memxorbuf` with the same source, of whatever length, gives the destination back.
memxorbuf_twice : (dst src : Src) → memxorbuf (memxorbuf dst src) src ≡ dst
unfolding memxorbuf
memxorbuf_twice (mem dst) (mem (s ∷ ss)) = ap mem (xor_loop_twice s ss dst (s ∷ ss))
memxorbuf_twice (mem dst) (mem []) = refl
memxorbuf_twice (mem dst) (null n) = refl
memxorbuf_twice (null n) src = refl
