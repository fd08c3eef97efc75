-- ===== src/Net/Buffers.antt =====
-- A buffer of a connection that holds a text, and the writing of bytes into its string.
use mathlib.Core.List.{append_assoc, append-nil}
use sapphiredb.Base.{
  ℕ, ◌+◌, ◌≤◌, ◌≡◌, refl, ◌∙◌, sym, ap, [], ◌∷◌, ◌++◌, ok, IsU32, length, length-append, take, drop,
  arith,
}
use sapphiredb.Proto.{Bytes}
use sapphiredb.Net.{Data, put, put_all, prefix}

-- The buffer holds a text, and its string has its full size.
pub record Holds (text : Bytes) (d : Data) : Type 0 where
  pub len_eq : d.len ≡ length text
  pub rest : Bytes
  pub buf_eq : d.buf ≡ text ++ rest
  pub full : length text + length rest ≡ d.size
  pub fits : IsU32 d.size

take-length-append : (xs ys : Bytes) → take (length xs) (xs ++ ys) ≡ xs
take-length-append [] ys = refl
take-length-append (x ∷ xs) ys = ap (◌∷◌ x) (take-length-append xs ys)

put-append :
    (pre rest : Bytes) (b x : ℕ) → put (length pre) b (pre ++ x ∷ rest) ≡ ok (pre ++ b ∷ rest)
unfolding put
put-append [] rest b x = refl
put-append (y ∷ pre) rest b x = rw (put-append pre rest b x) refl

-- The bytes behind a prefix are overwritten by a text.
pub put_all-append :
    (text pre rest : Bytes)
    → length text ≤ length rest
    → put_all (length pre) text (pre ++ rest) ≡ ok ((pre ++ text) ++ drop (length text) rest)
unfolding put_all
put_all-append [] pre rest l = rw (append-nil pre) refl
put_all-append (ch ∷ text) pre [] l = absurd (omega arith)
put_all-append (ch ∷ text) pre (x ∷ rest) l =
    rw
      (
        put-append pre rest ch x,
        sym (append_assoc pre (ch ∷ []) rest),
        sym (length-append pre (ch ∷ [])),
        put_all-append text (pre ++ ch ∷ []) rest (omega arith),
        append_assoc pre (ch ∷ []) text,
      )
      refl

-- The zero behind a text.
pub put_zero :
    (text rest : Bytes)
    → (rest' : Bytes) × (put (length text) 0 (text ++ rest) ≡ ok (text ++ rest'))
      × (length rest' ≡ length rest)
unfolding put
put_zero [] [] = ([], refl, refl)
put_zero [] (x ∷ rest) = (0 ∷ rest, refl, refl)
put_zero (y ∷ text) rest = let (rest', e, l) = put_zero text rest in (rest', rw e refl, l)

pub prefix-Holds : (text : Bytes) (d : Data) → Holds text d → prefix d.len d.buf ≡ ok text
unfolding prefix
prefix-Holds text d h =
    rw (h.len_eq, h.buf_eq, take-length-append text h.rest)
      (ground (arith, length-append text h.rest))

length-buf : (text : Bytes) (d : Data) → Holds text d → length d.buf ≡ d.size
length-buf text d h = ap length h.buf_eq ∙ length-append text h.rest ∙ h.full

pub emptied : (text : Bytes) (d : Data) → Holds text d → Holds [] (record d { len = 0 })
emptied text d h = record {
  len_eq = refl;
  rest = d.buf;
  buf_eq = refl;
  full = omega (arith, length-buf text d h);
  fits = h.fits;
}
