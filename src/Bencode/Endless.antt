-- ===== src/Bencode/Endless.antt =====
-- src/utils/bt_encode.c: a list whose decoding never ends.
use liblcb.Base.{
  ℕ, zero, suc, ◌+◌, ◌-◌, ◌^◌, ◌<◌, ◌≡◌, refl, ap, ◌∙◌, sym, subst, false, arith, ◌∷◌, ◌++◌, Bytes,
  codes, length, wrap, ◌==◌, ltb,
}
use liblcb.Memory.{mem_chr}
use liblcb.Num.Parse.{str2usize, str2unum, str2num}
use liblcb.Bencode.{
  found, unfinished, Node, node_str, bt_en_decode, list_loop, decode_text, decode_str, decode_list,
  next_item, no_nodes, node_then,
}
use native.Mathlib.Nat.{mod-eq_of_lt}

-- A string of 2 ^ 64 - 21 bytes, whose head has 21.
abbrev pub endless : Bytes
endless = codes "18446744073709551595:"

abbrev pub message : Bytes → Bytes
message rest = b'l' ∷ (endless ++ rest)

decode_str-endless :
    (buf_max cur : ℕ) (rest : Bytes)
    → cur + 21 < 2 ^ 64
    → cur < buf_max
    → decode_str buf_max cur (endless ++ rest) ≡ found (node_str (cur + 21) (2 ^ 64 - 21)) 0
unfolding decode_str mem_chr str2usize str2unum str2num
decode_str-endless buf_max cur rest h hb = ground arith

-- The string is decoded at once, and takes no bytes.
decode-endless :
    (fuel base : ℕ) (rest : Bytes)
    → base + length (message rest) < 2 ^ 64
    → bt_en_decode (suc fuel) base (message rest) (base + 1)
      ≡ found (node_str (base + 22) (2 ^ 64 - 21)) 0
unfolding bt_en_decode decode_text
decode-endless fuel base rest h =
    let at : base + 1 - base ≡ 1 = omega arith in
    let buf_max = base + length (message rest) in
    let inside : (base + 1 == buf_max) ≡ false = ground arith in
    let begun : ltb (base + 1) base ≡ false = ground arith in
    let ended : ltb buf_max (base + 1) ≡ false = ground arith in
    rw
      (
        at,
        inside,
        begun,
        ended,
        decode_str-endless buf_max (base + 1) rest (omega arith) (omega arith),
      )
      (ap (λ n. found (node_str n (2 ^ 64 - 21)) 0) (omega arith))

-- The loop is where it was.
next_again :
    (base : ℕ) (rest : Bytes) (node : Node)
    → next_item base (message rest) (base + 1) (node_then node no_nodes) (node_then node) unfinished
      ≡ unfinished
unfolding next_item
next_again base rest node =
    let at : base + 1 - base ≡ 1 = omega arith in
    let begun : ltb (base + 1) base ≡ false = ground arith in
    let ended : ltb (base + length (message rest)) (base + 1) ≡ false = ground arith in
    rw (begun, ended, at) refl

list_step :
    (fuel base : ℕ) (mem : Bytes) (cur : ℕ) (node : Node) (off : ℕ)
    → bt_en_decode fuel base mem cur ≡ found node off
    → list_loop (suc fuel) base mem cur
      ≡ next_item base mem
          (wrap (cur + off))
          (node_then node no_nodes)
          (node_then node)
          (list_loop fuel base mem (wrap (cur + off)))
unfolding list_loop
list_step fuel base mem cur node off e = rw (list_loop, e) refl

abbrev Stays : ℕ → Bytes → ℕ → ℕ → Type 0
Stays base rest fuel n =
    next_item base (message rest) n (node_then (node_str (base + 22) (2 ^ 64 - 21)) no_nodes)
      (node_then (node_str (base + 22) (2 ^ 64 - 21))) (list_loop fuel base (message rest) n)
    ≡ unfinished

list_loop-endless :
    (fuel base : ℕ) (rest : Bytes)
    → base + length (message rest) < 2 ^ 64
    → list_loop fuel base (message rest) (base + 1) ≡ unfinished
unfolding list_loop
list_loop-endless zero base rest h = refl
list_loop-endless (suc zero) base rest h = refl
list_loop-endless (suc (suc fuel)) base rest h =
    let again : wrap (base + 1 + 0) ≡ base + 1 = mod-eq_of_lt (omega arith) ∙ omega arith in
    let rest_ends = list_loop-endless (suc fuel) base rest h in
    list_step (suc fuel) base (message rest) (base + 1) (node_str (base + 22) (2 ^ 64 - 21)) 0
      (decode-endless fuel base rest h)
    ∙ subst (Stays base rest (suc fuel)) (sym again) (
        ap
          (next_item base (message rest) (base + 1)
            (node_then (node_str (base + 22) (2 ^ 64 - 21)) no_nodes)
            (node_then (node_str (base + 22) (2 ^ 64 - 21))))
          rest_ends
        ∙ next_again base rest (node_str (base + 22) (2 ^ 64 - 21)))

-- No number of steps is enough to decode a list that begins with a string of 2 ^ 64 - 21 bytes: the
-- sum of that size and of the string's place passes 2 ^ 64 and compares as inside the buffer, and
-- the string takes no bytes, so that the loop reads it again for ever, allocating a node each time.
-- The buffer is at any address and holds anything behind.
pub bt_en_decode-endless :
    (fuel base : ℕ) (rest : Bytes)
    → base + length (message rest) < 2 ^ 64
    → bt_en_decode fuel base (message rest) base ≡ unfinished
unfolding bt_en_decode decode_text decode_list
bt_en_decode-endless zero base rest h = refl
bt_en_decode-endless (suc fuel) base rest h =
    let at : base - base ≡ 0 = omega arith in
    let inside : (base == base + length (message rest)) ≡ false = ground arith in
    let begun : ltb base base ≡ false = ground arith in
    let ended : ltb (base + length (message rest)) base ≡ false = ground arith in
    rw (at, inside, begun, ended, list_loop-endless fuel base rest h) refl
