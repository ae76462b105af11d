-- ===== src/Wal/Raw/Extends.antt =====
-- A reader that succeeds does the same when more bytes follow, for it decides by what it reads, and
-- it leaves no more bytes than it found. One rule for each way to build a reader.
use pgroonga.Base.{
  ℕ, ◌≡◌, ◌≤◌, refl, ap, ◌∙◌, Bool, true, false, Bytes, ◌++◌, length, length-append, length-drop,
  take-append_le, drop-append_le, if◌then◌else◌, arith,
}
use pgroonga.Wal.Raw.{
  Reader, Raw, Result, ok, err, Error, pure, fail, continue, ◌>>=◌, read_data, refer, read_u32,
  read_u64,
}

pub record Extends {ℓ} {A : Type ℓ} (m : Reader A) : Type ℓ where
  pub at :
      (raw more : Bytes) (a : A) (rest : Raw)
      → m raw ≡ ok (a, rest)
      → m (raw ++ more) ≡ ok (a, rest ++ more)
  pub fewer : (raw : Bytes) (a : A) (rest : Raw) → m raw ≡ ok (a, rest) → length rest ≤ length raw

module _ {ℓ} {A : Type ℓ} where
  pub Extends-pure : (a : A) → Extends (pure a)
  unfolding pure
  Extends-pure a = record { at = λ raw more b rest h. cc; fewer = λ raw b rest h. ground arith }

  pub Extends-fail : (e : Error) → Extends (fail {A = A} e)
  unfolding fail
  Extends-fail e = record { at = λ raw more b rest h. cc; fewer = λ raw b rest h. cc }

  pub Extends-if :
      (b : Bool) (m n : Reader A) → Extends m → Extends n → Extends (if b then m else n)
  Extends-if true m n h k = h
  Extends-if false m n h k = k

module _ {ℓ κ} {A : Type ℓ} {B : Type κ} where
  continue-Extends :
      (m : Reader A) (f : A → Reader B) (r : Result (A × Raw)) (raw more : Bytes) (b : B)
      (rest : Raw)
      → ((a : A) (s : Raw) → r ≡ ok (a, s) → m (raw ++ more) ≡ ok (a, s ++ more))
      → ((a : A) → Extends (f a))
      → continue f r ≡ ok (b, rest)
      → continue f (m (raw ++ more)) ≡ ok (b, rest ++ more)
  continue-Extends m f (ok (a, s)) raw more b rest h k e =
      ap (continue f) (h a s refl) ∙ (k a).at s more b rest e
  continue-Extends m f (err c) raw more b rest h k e = cc

  continue-fewer :
      (f : A → Reader B) (r : Result (A × Raw)) (raw : Bytes) (b : B) (rest : Raw)
      → ((a : A) (s : Raw) → r ≡ ok (a, s) → length s ≤ length raw)
      → ((a : A) → Extends (f a))
      → continue f r ≡ ok (b, rest)
      → length rest ≤ length raw
  continue-fewer f (ok (a, s)) raw b rest h k e = omega (arith, h a s refl, (k a).fewer s b rest e)
  continue-fewer f (err c) raw b rest h k e = cc

  pub Extends-bind :
      (m : Reader A) (f : A → Reader B) → Extends m → ((a : A) → Extends (f a)) → Extends (m >>= f)
  unfolding ◌>>=◌
  Extends-bind m f h k = record {
    at = λ raw more b rest e.
        continue-Extends m f (m raw) raw more b rest (λ a s q. h.at raw more a s q) k e;
    fewer = λ raw b rest e. continue-fewer f (m raw) raw b rest (h.fewer raw) k e;
  }

pub Extends-read_data : (n : ℕ) → Extends (read_data n)
unfolding read_data
Extends-read_data n = record {
  at = λ raw more a rest e.
      ground (arith, length-append raw more, take-append_le n raw more, drop-append_le n raw more);
  fewer = λ raw a rest e. ground (arith, length-drop n raw);
}

pub Extends-refer : (n : ℕ) → Extends (refer n)
unfolding refer
Extends-refer n = record {
  at = λ raw more a rest e.
      ground (arith, length-append raw more, take-append_le n raw more, drop-append_le n raw more);
  fewer = λ raw a rest e. ground (arith, length-drop n raw);
}

pub ruleset extends_rules =
    (Extends-pure, Extends-fail, Extends-bind, Extends-if, Extends-read_data, Extends-refer)

pub Extends-read_u32 : Extends read_u32
unfolding read_u32
Extends-read_u32 = search extends_rules

pub Extends-read_u64 : Extends read_u64
unfolding read_u64
Extends-read_u64 = search extends_rules
