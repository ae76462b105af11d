-- ===== src/Wal/Apply/Drain.antt =====
-- What the unpacker takes out of the bytes that were fed.
use pgroonga.Base.{
  append-ne-nil_left, ℕ, zero, suc, ◌+◌, ◌-◌, ◌%◌, ◌^◌, ◌≤◌, ◌<◌, ◌≡◌, ◌≢◌, refl, sym, ap, ◌∙◌,
  Bytes, List, [], ◌∷◌, ◌++◌, length, drop, drop-append, length-append, append-split, append_assoc,
  append-nil, inl, inr, arith, not-suc-le-zero,
}
use pgroonga.Wal.Apply.{Unpacking, unpacked, incomplete, Applied, done, after_unpacking, drain}

module _ {ℓ} {A : Type ℓ} where
  -- The bytes of objects one after the other.
  abbrev pub encodes : (A → Bytes) → List A → Bytes
  encodes encode [] = []
  encodes encode (a ∷ xs) = encode a ++ encodes encode xs

  abbrev pub objects : List (Applied A) → List A
  objects [] = []
  objects (x ∷ xs) = x.object ∷ objects xs

  objects-append : (xs ys : List (Applied A)) → objects (xs ++ ys) ≡ objects xs ++ objects ys
  objects-append [] ys = refl
  objects-append (x ∷ xs) ys = ap (λ t. x.object ∷ t) (objects-append xs ys)

module _ {ℓ} {A : Type ℓ} (next : Bytes → Unpacking A) (encode : A → Bytes) where
  -- The unpacker finds an object that is whole, whatever follows it, and asks for more bytes in the
  -- middle of one.
  pub record IsUnpacker : Type ℓ where
    pub whole : (a : A) (rest : Bytes) → next (encode a ++ rest) ≡ unpacked a (length (encode a))
    pub part : (a : A) (p q : Bytes) → p ++ q ≡ encode a → q ≢ [] → next p ≡ incomplete
    pub empty : next [] ≡ incomplete
    pub some_bytes : (a : A) → 1 ≤ length (encode a)

  -- The objects that are whole are applied in their order; the start of the next one is kept.
  pub record Drained (fuel block end : ℕ) (buffered rest : Bytes) (xs : List A)
      (applied : List (Applied A)) : Type ℓ where
    pub taken : List A
    pub todo : List A
    pub left : Bytes
    pub now : List (Applied A)
    pub split : xs ≡ taken ++ todo
    pub result : drain next fuel block end buffered applied ≡ done (left, now)
    pub objects_are : objects now ≡ objects applied ++ taken
    pub left_are : left ++ rest ≡ encodes encode todo
    pub ends : rest ≡ [] → todo ≡ []

  pub drained :
      IsUnpacker
      → (fuel block end : ℕ) (buffered rest : Bytes) (xs : List A) (applied : List (Applied A))
      → length buffered < fuel
      → buffered ++ rest ≡ encodes encode xs
      → Drained fuel block end buffered rest xs applied
  unfolding drain
  drained u zero block end buffered rest xs applied lt e = absurd (not-suc-le-zero lt)
  drained u (suc fuel) block end [] rest [] applied lt e = record {
    taken = [];
    todo = [];
    left = [];
    now = applied;
    split = refl;
    result = ap (after_unpacking next block end [] applied (drain next fuel block end)) u.empty;
    objects_are = sym (append-nil (objects applied));
    left_are = e;
    ends = λ h. refl;
  }
  drained u (suc fuel) block end (b ∷ buffered) rest [] applied lt e = cc
  drained u (suc fuel) block end buffered rest (a ∷ xs) applied lt e =
      elim (append-split buffered rest (encode a) (encodes encode xs) e) [
        | inl (w, p, q) ↦
            let d =
              drained u fuel block end w rest xs (grown a buffered)
                (omega (arith, ap length p ∙ length-append (encode a) w, u.some_bytes a)) q in
            record {
              taken = a ∷ d.taken;
              todo = d.todo;
              left = d.left;
              now = d.now;
              split = ap (λ t. a ∷ t) d.split;
              result =
                  ap (after_unpacking next block end buffered applied (drain next fuel block end))
                    (ap next p ∙ u.whole a w)
                  ∙ ap (λ z. drain next fuel block end z (grown a buffered))
                      (ap (drop (length (encode a))) p ∙ drop-append (encode a) w)
                  ∙ d.result;
              objects_are =
                  d.objects_are
                  ∙ (ap (λ z. z ++ d.taken) (objects-append applied (last_one a buffered))
                      ∙ append_assoc (objects applied) (a ∷ []) d.taken);
              left_are = d.left_are;
              ends = d.ends;
            }
        | inr (w, p, ne, q) ↦ record {
          taken = [];
          todo = a ∷ xs;
          left = buffered;
          now = applied;
          split = refl;
          result =
              ap (after_unpacking next block end buffered applied (drain next fuel block end))
                (u.part a buffered w p ne);
          objects_are = sym (append-nil (objects applied));
          left_are = e;
          ends = λ h. absurd (append-ne-nil_left w (encodes encode xs) ne (sym q ∙ h));
        }
      ]
    where
      last_one : A → Bytes → List (Applied A)
      last_one a buffered =
          record {
            object = a;
            block = block;
            offset = (end + 2 ^ 64 - length (drop (length (encode a)) buffered)) % 2 ^ 16;
          }
          ∷ []

      grown : A → Bytes → List (Applied A)
      grown a buffered = applied ++ last_one a buffered
