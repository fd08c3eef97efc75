-- ===== src/Tests/Formats.antt =====
-- How values are written as bytes and read back: the parts that a codec is put together from.
use sapphiredb.Base.{ℕ, zero, suc, ◌≡◌, refl, List, [], ◌∷◌, length}
use sapphiredb.Proto.{Bytes}

-- A value is written in front of some bytes, and read from the front of them.
pub record Format (A : Type 0) : Type 0 where
  pub write : A → Bytes → Bytes
  pub read : Bytes → A × Bytes
  pub read-write : (a : A) (rest : Bytes) → read (write a rest) ≡ (a, rest)

abbrev less_one : ℕ → ℕ
less_one zero = zero
less_one (suc n) = n

abbrev read_number : Bytes → ℕ × Bytes
read_number [] = (0, [])
read_number (b ∷ bs) = (less_one b, bs)

abbrev pub number : Format ℕ
number = record { write = λ n rest. suc n ∷ rest; read = read_number; read-write = λ n rest. refl }

abbrev pub both : {A B : Type 0} → Format A → Format B → Format (A × B)
both f g = record {
  write = λ p rest. f.write p.0 (g.write (p.1) rest);
  read = λ bs. let (a, rest) = f.read bs in let (b, rest') = g.read rest in ((a, b), rest');
  read-write = λ p rest. rw (f.read-write p.0 (g.write (p.1) rest), g.read-write (p.1) rest) refl;
}

-- A type whose values are those of another one, taken apart and put together.
abbrev pub via :
    {A B : Type 0} (apart : B → A) (build : A → B)
    → ((b : B) → build (apart b) ≡ b)
    → Format A
    → Format B
via apart build law f = record {
  write = λ b rest. f.write (apart b) rest;
  read = λ bs. let (a, rest) = f.read bs in (build a, rest);
  read-write = λ b rest. rw (f.read-write (apart b) rest, law b) refl;
}

module _ {A : Type 0} (f : Format A) where
  abbrev write_all : List A → Bytes → Bytes
  write_all [] rest = rest
  write_all (x ∷ xs) rest = f.write x (write_all xs rest)

  abbrev read_all : ℕ → Bytes → List A × Bytes
  read_all zero bs = ([], bs)
  read_all (suc n) bs =
      let (x, rest) = f.read bs in let (xs, rest') = read_all n rest in (x ∷ xs, rest')

  pub read_all-write_all :
      (xs : List A) (rest : Bytes) → read_all (length xs) (write_all xs rest) ≡ (xs, rest)
  read_all-write_all [] rest = refl
  read_all-write_all (x ∷ xs) rest =
      rw (f.read-write x (write_all xs rest), read_all-write_all xs rest) refl

  abbrev pub list : Format (List A)
  list = record {
    write = λ xs rest. number.write (length xs) (write_all xs rest);
    read = λ bs. let (n, rest) = number.read bs in read_all n rest;
    read-write = λ xs rest. read_all-write_all xs rest;
  }
