-- ===== src/BufStr/Args/Words.antt =====
-- What `buf2args` finds in a buffer of words that stand without quotes.
use liblcb.Base.{
  ℕ, zero, suc, ◌+◌, ◌≤◌, ◌≡◌, refl, sym, ap, ◌∙◌, arith, some, List, [], ◌∷◌, ◌++◌, Bytes, true,
  false, ltb, ◌==◌, ◌>>=◌, length, get_or, set, drop, All, append_assoc, length-append, drop-append,
  lt→ltb, le→ltb,
}
use liblcb.Base.Buffer.{store}
use liblcb.BufStr.Args.{
  is_sptab, calc_sptab_count, calc_non_sptab_count, Arg, arg_at, add_arg, args_loop, buf2args,
}

abbrev IsBlank : ℕ → Type 0
IsBlank c = is_sptab c ≡ true

abbrev IsPlain : ℕ → Type 0
IsPlain c = is_sptab c ≡ false

-- A word of the bytes `first ∷ others`, behind spaces and tabs and in front of one.
pub record Word : Type 0 where
  pub gap : Bytes
  pub first : ℕ
  pub others : Bytes
  pub end : ℕ

abbrev pub word_bytes : Word → Bytes
word_bytes w = w.first ∷ w.others

abbrev pub IsWord : Word → Type 0
IsWord w =
    All IsBlank w.gap × All IsPlain (word_bytes w) × ((w.first == b'"') ≡ false) × IsBlank w.end

-- The words, and blanks behind them.
abbrev pub line_of : List Word → Bytes → Bytes
line_of [] blanks = blanks
line_of (w ∷ ws) blanks = w.gap ++ (word_bytes w ++ (w.end ∷ line_of ws blanks))

-- The same with a 0 in place of the blank behind each word.
abbrev pub cut_line : List Word → Bytes → Bytes
cut_line [] blanks = blanks
cut_line (w ∷ ws) blanks = w.gap ++ (word_bytes w ++ (0 ∷ cut_line ws blanks))

-- Where the words stand, from `pos` on.
abbrev pub places : ℕ → List Word → List Arg
places pos [] = []
places pos (w ∷ ws) =
    record { start = pos + length w.gap; size = length (word_bytes w) }
    ∷ places (pos + length w.gap + length (word_bytes w) + 1) ws

blanks_counted :
    (gap : Bytes) (c : ℕ) (rest : Bytes)
    → All IsBlank gap
    → IsPlain c
    → calc_sptab_count (gap ++ (c ∷ rest)) ≡ length gap
unfolding calc_sptab_count
blanks_counted [] c rest all plain = rw plain refl
blanks_counted (b ∷ gap) c rest (blank, all) plain =
    rw blank (ap suc (blanks_counted gap c rest all plain))

only_blanks : (gap : Bytes) → All IsBlank gap → calc_sptab_count gap ≡ length gap
unfolding calc_sptab_count
only_blanks [] all = refl
only_blanks (b ∷ gap) (blank, all) = rw blank (ap suc (only_blanks gap all))

word_counted :
    (w : Bytes) (c : ℕ) (rest : Bytes)
    → All IsPlain w
    → IsBlank c
    → calc_non_sptab_count (w ++ (c ∷ rest)) ≡ length w
unfolding calc_non_sptab_count
word_counted [] c rest all blank = rw blank refl
word_counted (b ∷ w) c rest (plain, all) blank = rw plain (ap suc (word_counted w c rest all blank))

get_or-append : (xs ys : Bytes) → get_or (xs ++ ys) (length xs) 0 ≡ get_or ys 0 0
get_or-append [] ys = refl
get_or-append (x ∷ xs) ys = get_or-append xs ys

set-append :
    (xs : Bytes) (y : ℕ) (ys : Bytes) (v : ℕ) → set (xs ++ (y ∷ ys)) (length xs) v ≡ xs ++ (v ∷ ys)
set-append [] y ys v = refl
set-append (x ∷ xs) y ys v = ap (x ∷◌) (set-append xs y ys v)

store-append :
    (xs : Bytes) (y : ℕ) (ys : Bytes) (v : ℕ)
    → store (xs ++ (y ∷ ys)) (length xs) v ≡ some (xs ++ (v ∷ ys))
unfolding store
store-append xs y ys v =
    rw (lt→ltb (length xs) (length (xs ++ (y ∷ ys))) (omega (arith, length-append xs (y ∷ ys))))
      (ap some (set-append xs y ys v))

arg_at-word :
    (p : Bytes) (c : ℕ) (cs : Bytes) (e : ℕ) (rest : Bytes)
    → All IsPlain (c ∷ cs)
    → ((c == b'"') ≡ false)
    → IsBlank e
    → arg_at (p ++ ((c ∷ cs) ++ (e ∷ rest))) (length p)
      ≡ record { start = length p; size = length (c ∷ cs) }
unfolding arg_at
arg_at-word p c cs e rest plain no_quote blank =
    rw
      (
        get_or-append p ((c ∷ cs) ++ (e ∷ rest)),
        no_quote,
        drop-append (length p) p ((c ∷ cs) ++ (e ∷ rest)) refl,
        word_counted (c ∷ cs) e rest plain blank,
      )
      refl

-- The size of what stands in front of a word, and the blanks that the loop passes there.
blanks_before :
    (p : Bytes) (w : Word) (rest : Bytes)
    → IsWord w
    → calc_sptab_count (drop (length p) (p ++ (w.gap ++ (word_bytes w ++ (w.end ∷ rest)))))
      ≡ length w.gap
blanks_before p w rest (gaps, (plain, _), _, _) =
    ap calc_sptab_count (drop-append (length p) p (w.gap ++ (word_bytes w ++ (w.end ∷ rest))) refl)
    ∙ blanks_counted w.gap w.first (w.others ++ (w.end ∷ rest)) gaps plain

line_at_word :
    (p : Bytes) (w : Word) (rest : Bytes)
    → (p ++ (w.gap ++ (word_bytes w ++ (w.end ∷ rest))))
      ≡ ((p ++ w.gap) ++ (word_bytes w ++ (w.end ∷ rest)))
line_at_word p w rest = sym (append_assoc p w.gap (word_bytes w ++ (w.end ∷ rest)))

place_found :
    (p : Bytes) (w : Word) (rest : Bytes)
    → IsWord w
    → arg_at (p ++ (w.gap ++ (word_bytes w ++ (w.end ∷ rest)))) (length p + length w.gap)
      ≡ record { start = length p + length w.gap; size = length (word_bytes w) }
place_found p w rest (gaps, plain, no_quote, blank) =
    rw (line_at_word p w rest, ← length-append p w.gap)
      (arg_at-word (p ++ w.gap) w.first w.others w.end rest plain no_quote blank)

word_cut :
    (p : Bytes) (w : Word) (rest : Bytes)
    → store
        (p ++ (w.gap ++ (word_bytes w ++ (w.end ∷ rest))))
        (length p + length w.gap + length (word_bytes w))
        0
      ≡ some ((p ++ (w.gap ++ (word_bytes w ++ (0 ∷ [])))) ++ rest)
word_cut p w rest =
    rw
      (
        line_at_word p w rest,
        ← append_assoc (p ++ w.gap) (word_bytes w) (w.end ∷ rest),
        ← length-append p w.gap,
        ← length-append (p ++ w.gap) (word_bytes w),
        store-append ((p ++ w.gap) ++ word_bytes w) w.end rest 0,
      )
      (simp append_assoc refl)

one_word :
    (left : ℕ) (p : Bytes) (w : Word) (rest : Bytes)
    → IsWord w
    → args_loop (suc left) (p ++ (w.gap ++ (word_bytes w ++ (w.end ∷ rest)))) (length p) ≡ (
        args_loop left
          ((p ++ (w.gap ++ (word_bytes w ++ (0 ∷ [])))) ++ rest)
          (length p + length w.gap + length (word_bytes w) + 1)
        >>= λ r.
            some (
              add_arg (record { start = length p + length w.gap; size = length (word_bytes w) }) r))
unfolding args_loop
one_word left p w rest is_word =
    let inside : ltb (length p + length w.gap)
          (length (p ++ (w.gap ++ (word_bytes w ++ (w.end ∷ rest)))))
        ≡ true =
      lt→ltb (length p + length w.gap) (length (p ++ (w.gap ++ (word_bytes w ++ (w.end ∷ rest))))) (
        omega (
          arith,
          length-append p (w.gap ++ (word_bytes w ++ (w.end ∷ rest))),
          length-append w.gap (word_bytes w ++ (w.end ∷ rest)),
        )) in
    rw
      (
        args_loop,
        blanks_before p w rest is_word,
        inside,
        blanks_before p w rest is_word,
        place_found p w rest is_word,
        word_cut p w rest,
      )
      refl

no_more_words :
    (left : ℕ) (p blanks : Bytes)
    → All IsBlank blanks
    → args_loop left (p ++ blanks) (length p) ≡ some (record { args = []; buf = p ++ blanks })
unfolding args_loop
no_more_words zero p blanks all = refl
no_more_words (suc left) p blanks all =
    let outside : ltb (length p + length blanks) (length (p ++ blanks)) ≡ false =
      le→ltb (length p + length blanks) (length (p ++ blanks))
        (omega (arith, length-append p blanks)) in
    rw (args_loop, drop-append (length p) p blanks refl, only_blanks blanks all, outside) refl

args_loop-line_of :
    (ws : List Word) (left : ℕ) (p blanks : Bytes)
    → All IsWord ws
    → All IsBlank blanks
    → length ws ≤ left
    → args_loop left (p ++ line_of ws blanks) (length p)
      ≡ some (record { args = places (length p) ws; buf = p ++ cut_line ws blanks })
args_loop-line_of [] left p blanks all blank le = no_more_words left p blanks blank
args_loop-line_of (w ∷ ws) zero p blanks all blank le = absurd (omega arith)
args_loop-line_of (w ∷ ws) (suc left) p blanks (is_word, all) blank le =
    let before = p ++ (w.gap ++ (word_bytes w ++ (0 ∷ []))) in
    let next : length before ≡ length p + length w.gap + length (word_bytes w) + 1 = omega (
      arith,
      length-append p (w.gap ++ (word_bytes w ++ (0 ∷ []))),
      length-append w.gap (word_bytes w ++ (0 ∷ [])),
      length-append (word_bytes w) (0 ∷ []),
    ) in
    one_word left p w (line_of ws blanks) is_word
    ∙ rw (← next, args_loop-line_of ws left before blanks all blank (omega arith))
        (simp append_assoc refl)

-- In a buffer of words, each of them behind any number of spaces and tabs and in front of one, and
-- none beginning with a quote, `buf2args` finds the places and sizes of these words in their order,
-- if `max_args` allows as many, and stores a 0 behind each of them and nothing else.
pub buf2args-line_of :
    (ws : List Word) (blanks : Bytes) (max_args : ℕ)
    → All IsWord ws
    → All IsBlank blanks
    → length ws ≤ max_args
    → buf2args (line_of ws blanks) max_args
      ≡ some (record { args = places 0 ws; buf = cut_line ws blanks })
unfolding buf2args
buf2args-line_of ws blanks max_args all blank le =
    args_loop-line_of ws max_args [] blanks all blank le
