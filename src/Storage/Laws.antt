-- ===== src/Storage/Laws.antt =====
-- What can be read back from the storage file.
use mathlib.Core.List.{append_assoc}
use sapphiredb.Base.{
  ◌<◌, ◌≡◌, refl, ◌≢◌, [], ◌∷◌, ◌++◌, ok, length, drop, take_of_length-le, arith, IsU64, List, ◌-◌,
  ◌+◌, take, suc, zero, ℕ, ◌∙◌, ap, get_elem?, some, Returns, Bool-cases, ltb, leb, sub64, u64,
  true, if-Meets, Outcome, ◌==◌, if◌then◌else◌, inl, inr, get_elem?-of_lt,
}
use sapphiredb.Proto.{Bytes, Codec, Entry, StorageData, empty_storage_data}
use sapphiredb.Storage.{
  c_string, read_buffer, Storage, load, entries, append, first_index, last_index, term,
}

abbrev pub NoZero : Bytes → Type 0
NoZero [] = Unit {0}
NoZero (b ∷ bs) = (b ≢ 0) × NoZero bs

pub c_string-append : (bs rest : Bytes) → NoZero bs → c_string (bs ++ 0 ∷ rest) ≡ ok bs
unfolding c_string
c_string-append [] rest h = refl
c_string-append (b ∷ bs) rest h = ground (arith, c_string-append bs rest h.1)

lt_of_get_elem? : (es : List Entry) (i : ℕ) (e : Entry) → get_elem? es i ≡ some e → i < length es
lt_of_get_elem? [] i e h = cc
lt_of_get_elem? (x ∷ es) zero e h = omega arith
lt_of_get_elem? (x ∷ es) (suc i) e h = omega (arith, lt_of_get_elem? es i e h)

past-Returns :
    (last i : ℕ) (m : Outcome ℕ)
    → ltb last i ≡ true
    → Returns (λ (_ : ℕ). Unit {0}) (if leb last 0 then ok 0 else if ltb last i then ok 0 else m)
past-Returns last i m h = ground (arith, h)

-- Taking more than a text and the zero behind it.
take-past :
    (text rest : Bytes) (n : ℕ)
    → length text < n
    → take n (text ++ 0 ∷ rest) ≡ text ++ 0 ∷ take (n - length text - 1) rest
take-past text rest zero h = absurd (omega arith)
take-past [] rest (suc n) h = ap (λ k. 0 ∷ take k rest) (omega arith)
take-past (b ∷ text) rest (suc n) h =
    ap (◌∷◌ b)
      (take-past text rest n (omega arith) ∙ ap (λ k. text ++ 0 ∷ take k rest) (omega arith))

module _ ⦃c : Codec⦄ where
  -- A text that one `read` brings back whole: no zero in it, and a zero behind it in the buffer.
  pub record IsReadable (text : Bytes) : Type 0 where
    pub no_zero : NoZero text
    pub short : length text < 1024
    pub ended : (rest : Bytes) × (drop (length text) c.stack ≡ 0 ∷ rest)

  read_buffer_of_IsReadable : (text : Bytes) → IsReadable text → read_buffer text ≡ ok text
  unfolding read_buffer
  read_buffer_of_IsReadable text h =
      rw (take_of_length-le 1024 text (omega arith), h.ended.1)
        (c_string-append text h.ended.0 h.no_zero)

  -- A file is read back only up to its first zero byte, if that is among its first 1024 bytes.
  pub read_buffer_cut :
      (text rest : Bytes)
      → NoZero text
      → length text < 1024
      → read_buffer (text ++ 0 ∷ rest) ≡ ok text
  unfolding read_buffer
  read_buffer_cut text rest n l =
      rw (take-past text rest 1024 l)
        (rw (append_assoc text (0 ∷ take (1024 - length text - 1) rest)) (c_string-append text _ n))

  written : List Entry → Bytes
  written ents = c.write_storage (record empty_storage_data { entries = ents })

  pub load-write_storage :
      (d : StorageData) → IsReadable (c.write_storage d) → load (c.write_storage d) ≡ ok d
  unfolding load
  load-write_storage d h = rw (read_buffer_of_IsReadable _ h, c.read-write_storage d)

  load-written :
      (ents : List Entry)
      → IsReadable (written ents)
      → load (written ents) ≡ ok (record empty_storage_data { entries = ents })
  unfolding written
  load-written ents h = load-write_storage (record empty_storage_data { entries = ents }) h

  -- What a storage holds after `Append` is what was appended, whatever it held before; the first
  -- index is 0, and the last index is one less than the number of entries, since no offset is
  -- written: if the file can be read back.
  pub append_reads :
      (ents : List Entry) (s : Storage)
      → IsReadable (c.write_storage (record empty_storage_data { entries = ents }))
      → IsU64 (length ents)
      → 0 < length ents
      → (entries (append ents s) ≡ ok ents)
        × (first_index (append ents s) ≡ ok 0)
        × (last_index (append ents s) ≡ ok (length ents - 1))
  unfolding entries append first_index last_index written
  append_reads ents s h b p = ground (arith, load-written ents h)

  -- With the offset that is not written, a question about an index finds the entry at that position,
  -- counted from 0, if there are several.
  pub term-append :
      (ents : List Entry) (s : Storage) (i : ℕ) (e : Entry)
      → IsReadable (c.write_storage (record empty_storage_data { entries = ents }))
      → IsU64 (length ents)
      → 1 < length ents
      → get_elem? ents i ≡ some e
      → term i (append ents s) ≡ ok e.term
  unfolding term last_index append written
  term-append ents s i e h b p g =
      ground (arith, load-written ents h, g, lt_of_get_elem? ents i e g)

  -- After `Append`, every question about a term has an answer, if the file can be read back.
  pub term-append-Returns :
      (ents : List Entry) (s : Storage) (i : ℕ)
      → IsReadable (c.write_storage (record empty_storage_data { entries = ents }))
      → IsU64 (length ents)
      → Returns (λ (_ : ℕ). Unit {0}) (term i (append ents s))
  unfolding term last_index append written
  term-append-Returns [] s i h b = rw (load-written [] h) (ground arith)
  term-append-Returns (x ∷ []) s i h b = rw (load-written (x ∷ []) h) (ground arith)
  term-append-Returns (x ∷ y ∷ es) s i h b = elim (Bool-cases (ltb i (length es + 2))) [
    | inl l ↦
        let (e, g) = get_elem?-of_lt (x ∷ y ∷ es) i (ground (arith, l)) in
        rw (term-append (x ∷ y ∷ es) s i e h b (omega arith) g) tt
    | inr l ↦ rw (load-written (x ∷ y ∷ es) h) (
        if-Meets ⊥ (λ (_ : ℕ). Unit {0}) (ltb i 0) _ _ (if-Meets ⊥ _ (0 == i) _ _ tt tt)
          (past-Returns
            (if ltb 0 (length (x ∷ y ∷ es)) then sub64 (u64 (0 + length (x ∷ y ∷ es))) 1 else 0) i _
            (ground (arith, l))))
  ]
