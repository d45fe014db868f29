-- ===== src/Base/Buffer.antt =====
-- Memory that the code writes: a caller's buffer, and a pointer that moves through it.
use Prim.Native.Nat.{suc, ℕ, ◌≤◌, ◌<◌}
use mathlib.Core.Path.{◌≡◌, refl, ◌∙◌}
use mathlib.Core.List.{[], ◌∷◌, ◌++◌, append-nil, append_assoc}
use mathlib.Core.Logic.{inl, inr}
use mathlib.Core.Option.{Option, none, some}
use native.Mathlib.Omega.{arith}
use liblcb.Base.Lists.{Bytes, length, set, drop, drop-cons, drop-all}
use liblcb.Base.Tests.{ltb, if◌then◌else◌, ◌>>=◌, Option-cases}

-- `buf[i] = v`, where `none` is a write past the end.
unfoldable pub store : Bytes → ℕ → ℕ → Option Bytes
store buf i v = if ltb i (length buf) then some (set buf i v) else none

-- A buffer cut at the write pointer: the bytes before it, and the room from it on.
pub record Cursor : Type 0 where
  pub written : Bytes
  pub room : Bytes

put_room : Bytes → ℕ → Bytes → Option Cursor
put_room w b [] = none
put_room w b (x ∷ r) = some (record { written = w ++ (b ∷ []); room = r })

-- `(*wpos ++) = b`, where `none` is a write past the end.
unfoldable pub put : Cursor → ℕ → Option Cursor
unfolding put_room
put c b = put_room c.written b c.room

unfoldable pub puts : Cursor → Bytes → Option Cursor
unfolding put
puts c [] = some c
puts c (b ∷ bs) = put c b >>= λ c'. puts c' bs

abbrev pub buffer : Cursor → Bytes
buffer c = c.written ++ c.room

-- Bytes that fit are laid down in order from the pointer on, over what stood there.
pub puts_fits :
    (bs w r : Bytes)
    → length bs ≤ length r
    → puts (record { written = w; room = r }) bs
      ≡ some (record { written = w ++ bs; room = drop (length bs) r })
unfolding puts
puts_fits [] w r h = rw append-nil
puts_fits (b ∷ bs) w [] h = absurd (omega arith)
puts_fits (b ∷ bs) w (x ∷ r) h = puts_fits bs (w ++ (b ∷ [])) r (omega arith) ∙ rw append_assoc

-- One byte too many is a write past the end.
pub puts_overflow :
    (bs w r : Bytes) → length r < length bs → puts (record { written = w; room = r }) bs ≡ none
unfolding puts
puts_overflow [] w r h = elim h [ ]
puts_overflow (b ∷ bs) w [] h = refl
puts_overflow (b ∷ bs) w (x ∷ r) h = puts_overflow bs (w ++ (b ∷ [])) r (omega arith)

-- Writing two byte strings is writing the first and then the second.
pub puts-append :
    (xs ys : Bytes) (w : Cursor) → puts w (xs ++ ys) ≡ (puts w xs >>= λ w'. puts w' ys)
unfolding puts
puts-append [] ys w = refl
puts-append (x ∷ xs) ys w = elim (Option-cases (put w x)) [
  | inl e ↦ rw e
  | inr (w', e) ↦ rw e (puts-append xs ys w')
]

-- One byte into the room that is left behind `n` bytes of a buffer, and into no room.
pub put_next :
    (w dst : Bytes) (n b : ℕ)
    → n < length dst
    → put (record { written = w; room = drop n dst }) b
      ≡ some (record { written = w ++ (b ∷ []); room = drop (suc n) dst })
unfolding put
put_next w dst n b h = rw (drop-cons n dst 0 h)

pub put_past_end :
    (w dst : Bytes) (n b : ℕ)
    → length dst ≤ n
    → put (record { written = w; room = drop n dst }) b ≡ none
unfolding put
put_past_end w dst n b h = rw (drop-all n dst h)
