-- ===== src/Wal/Raw/Parses.antt =====
-- Reading back what was written: `m` takes exactly the bytes `bs`, whatever follows them, and
-- returns `a`. One rule for each way to build a reader.
use pgroonga.Base.{
  ℕ, ◌^◌, ◌<◌, ◌≡◌, refl, sym, subst, ◌∙◌, ap, Bytes, [], ◌++◌, append_assoc, append-nil, length,
  length-append, take-append, drop-append, le→ltb, to_le, from_le, from_le-to_le_four,
  from_le-to_le_eight, arith,
}
use pgroonga.Wal.Raw.{
  Reader, ok, pure, continue, ◌>>=◌, read_data, refer, read_u32, read_u64, u32, u64,
}

pub record Parses {ℓ} {A : Type ℓ} (m : Reader A) (bs : Bytes) (a : A) : Type ℓ where
  pub at : (rest : Bytes) → m (bs ++ rest) ≡ ok (a, rest)

module _ {ℓ} {A : Type ℓ} where
  pub Parses-pure : (a : A) → Parses (pure a) [] a
  unfolding pure
  Parses-pure a = record { at = λ rest. refl }

  pub Parses-all : {m : Reader A} {bs : Bytes} {a : A} → Parses m bs a → m bs ≡ ok (a, [])
  Parses-all {m} {bs} p = ap m (sym (append-nil bs)) ∙ p.at []

module _ {ℓ κ} {A : Type ℓ} {B : Type κ} where
  pub Parses-bind :
      {m : Reader A} (f : A → Reader B) {bs cs : Bytes} {a : A} {b : B}
      → Parses m bs a
      → Parses (f a) cs b
      → Parses (m >>= f) (bs ++ cs) b
  unfolding ◌>>=◌
  Parses-bind {m} f {bs} {cs} p q = record {
    at = λ rest.
        ap (λ r. continue f (m r)) (append_assoc bs cs rest)
        ∙ ap (continue f) (p.at (cs ++ rest))
        ∙ q.at rest;
  }

  -- The last reader of a chain need not be followed by an empty text.
  pub Parses-bind_pure :
      {m : Reader A} (g : A → B) {bs : Bytes} {a : A}
      → Parses m bs a
      → Parses (m >>= λ x. pure (g x)) bs (g a)
  unfolding ◌>>=◌ pure
  Parses-bind_pure {m} g p = record { at = λ rest. ap (continue (λ x. pure (g x))) (p.at rest) }

module _ {ℓ κ} {A : Type ℓ} {B : Type κ} where
  -- The rest of the chain reads nothing.
  pub Parses-bind_last :
      {m : Reader A} (f : A → Reader B) {bs : Bytes} {a : A} {b : B}
      → Parses m bs a
      → Parses (f a) [] b
      → Parses (m >>= f) bs b
  Parses-bind_last {m} f {bs} {b = b} p q =
      subst (λ t. Parses (m >>= f) t b) (append-nil bs) (Parses-bind f p q)

pub Parses-read_data : {n : ℕ} (bs : Bytes) → length bs ≡ n → Parses (read_data n) bs bs
unfolding read_data
Parses-read_data bs h = record {
  at = λ rest. rw (← h) (
      rw (le→ltb (length (bs ++ rest)) (length bs) (omega (arith, length-append bs rest)))
        (rw (take-append, drop-append)));
}

pub Parses-refer : {n : ℕ} (bs : Bytes) → length bs ≡ n → Parses (refer n) bs bs
unfolding refer
Parses-refer bs h = record {
  at = λ rest. rw (← h) (
      rw (le→ltb (length (bs ++ rest)) (length bs) (omega (arith, length-append bs rest)))
        (rw (take-append, drop-append)));
}

pub Parses-read_u32 : (n : ℕ) → n < 2 ^ 32 → Parses read_u32 (u32 n) n
unfolding read_u32 u32
Parses-read_u32 n h =
    subst (λ k. Parses read_u32 (u32 n) k) (from_le-to_le_four n h)
      (Parses-bind_pure from_le (Parses-read_data (to_le 4 n) refl))

pub Parses-read_u64 : (n : ℕ) → n < 2 ^ 64 → Parses read_u64 (u64 n) n
unfolding read_u64 u64
Parses-read_u64 n h =
    subst (λ k. Parses read_u64 (u64 n) k) (from_le-to_le_eight n h)
      (Parses-bind_pure from_le (Parses-read_data (to_le 8 n) refl))
