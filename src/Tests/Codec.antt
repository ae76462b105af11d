-- ===== src/Tests/Codec.antt =====
-- A packer and an unpacker of MessagePack's objects that stand for those of msgpack-c in the tests: the calls one after
-- the other, each by a tag, behind the number of the bytes of the object.
use pgroonga.Base.{
  subst, ℕ, zero, suc, ◌+◌, ◌≤◌, ◌≡◌, ◌≢◌, refl, ap, ◌∙◌, true, false, Bytes, List, [], ◌∷◌, ◌++◌,
  length, take, drop, append_assoc, length-append, take-append, drop-append, append-nil, ◌*◌, arith,
  ltb, lt→ltb, le→ltb, if◌then◌else◌,
}
use pgroonga.Wal.Msgpack.{
  Msg, Items, Fields, Call, items, fields, calls, item_calls, field_calls, no_items, item,
  no_fields, field, pack_nil, pack_boolean, pack_positive, pack_negative, pack_float, pack_double,
  pack_str, pack_bin, pack_ext, pack_array, pack_map,
}
use pgroonga.Wal.Apply.{Unpacking, unpacked, incomplete}
use pgroonga.Wal.Apply.Drain.{IsUnpacker}

-- The object that the first calls describe, and the calls behind it.
unfoldable mutual
  parse : ℕ → List Call → Msg × List Call
  parse zero cs = (Msg.nil, cs)
  parse (suc f) [] = (Msg.nil, [])
  parse (suc f) (pack_nil ∷ cs) = (Msg.nil, cs)
  parse (suc f) (pack_boolean b ∷ cs) = (Msg.boolean b, cs)
  parse (suc f) (pack_positive n ∷ cs) = (Msg.positive_integer n, cs)
  parse (suc f) (pack_negative n ∷ cs) = (Msg.negative_integer n, cs)
  parse (suc f) (pack_float n ∷ cs) = (Msg.float32 n, cs)
  parse (suc f) (pack_double n ∷ cs) = (Msg.float64 n, cs)
  parse (suc f) (pack_str s ∷ cs) = (Msg.str s, cs)
  parse (suc f) (pack_bin s ∷ cs) = (Msg.bin s, cs)
  parse (suc f) (pack_ext t s ∷ cs) = (Msg.ext t s, cs)
  parse (suc f) (pack_array n ∷ cs) = let r = parse_items f n cs in (Msg.array r.0, r.1)
  parse (suc f) (pack_map n ∷ cs) = let r = parse_fields f n cs in (Msg.map r.0, r.1)

  parse_items : ℕ → ℕ → List Call → Items × List Call
  parse_items zero n cs = (no_items, cs)
  parse_items (suc f) zero cs = (no_items, cs)
  parse_items (suc f) (suc n) cs =
      let r = parse f cs in let rs = parse_items f n r.1 in (item r.0 rs.0, rs.1)

  parse_fields : ℕ → ℕ → List Call → Fields × List Call
  parse_fields zero n cs = (no_fields, cs)
  parse_fields (suc f) zero cs = (no_fields, cs)
  parse_fields (suc f) (suc n) cs =
      let k = parse f cs in
      let v = parse f k.1 in let rs = parse_fields f n v.1 in (field k.0 v.0 rs.0, rs.1)

some_calls : (o : Msg) → 1 ≤ length (calls o)
unfolding calls
some_calls Msg.nil = omega arith
some_calls (Msg.boolean b) = omega arith
some_calls (Msg.positive_integer n) = omega arith
some_calls (Msg.negative_integer n) = omega arith
some_calls (Msg.float32 n) = omega arith
some_calls (Msg.float64 n) = omega arith
some_calls (Msg.str s) = omega arith
some_calls (Msg.bin s) = omega arith
some_calls (Msg.ext t s) = omega arith
some_calls (Msg.array ms) = omega arith
some_calls (Msg.map fs) = omega arith

mutual
  unfolding calls parse

  parse-calls :
      (o : Msg) (f : ℕ) (rest : List Call)
      → 3 * length (calls o) ≤ f + 1
      → parse f (calls o ++ rest) ≡ (o, rest)
  parse-calls o zero rest le = absurd (omega (arith, some_calls o))
  parse-calls Msg.nil (suc f) rest le = refl
  parse-calls (Msg.boolean b) (suc f) rest le = refl
  parse-calls (Msg.positive_integer n) (suc f) rest le = refl
  parse-calls (Msg.negative_integer n) (suc f) rest le = refl
  parse-calls (Msg.float32 n) (suc f) rest le = refl
  parse-calls (Msg.float64 n) (suc f) rest le = refl
  parse-calls (Msg.str s) (suc f) rest le = refl
  parse-calls (Msg.bin s) (suc f) rest le = refl
  parse-calls (Msg.ext t s) (suc f) rest le = refl
  parse-calls (Msg.array ms) (suc f) rest le =
      ap (λ r. (Msg.array r.0, r.1)) (parse_items-calls ms f rest (omega arith))
  parse-calls (Msg.map fs) (suc f) rest le =
      ap (λ r. (Msg.map r.0, r.1)) (parse_fields-calls fs f rest (omega arith))

  parse_items-calls :
      (ms : Items) (f : ℕ) (rest : List Call)
      → 3 * length (item_calls ms) + 1 ≤ f
      → parse_items f (items ms) (item_calls ms ++ rest) ≡ (ms, rest)
  parse_items-calls ms zero rest le = absurd (omega arith)
  parse_items-calls no_items (suc f) rest le = refl
  parse_items-calls (item m ms) (suc f) rest le =
      rw
        (
          append_assoc (calls m) (item_calls ms) rest,
          parse-calls m f (item_calls ms ++ rest)
              (omega (arith, length-append (calls m) (item_calls ms))),
        )
        (rw
          (parse_items-calls ms f rest
            (omega (arith, length-append (calls m) (item_calls ms), some_calls m)))
          refl)

  parse_fields-calls :
      (fs : Fields) (f : ℕ) (rest : List Call)
      → 3 * length (field_calls fs) + 1 ≤ f
      → parse_fields f (fields fs) (field_calls fs ++ rest) ≡ (fs, rest)
  parse_fields-calls fs zero rest le = absurd (omega arith)
  parse_fields-calls no_fields (suc f) rest le = refl
  parse_fields-calls (field k v fs) (suc f) rest le =
      rw
        (
          append_assoc (calls k) (calls v ++ field_calls fs) rest,
          append_assoc (calls v) (field_calls fs) rest,
        )
        (rw
          (parse-calls k f (calls v ++ (field_calls fs ++ rest))
            (omega (arith, length-append (calls k) (calls v ++ field_calls fs))))
          (rw
            (parse-calls v f (field_calls fs ++ rest) (
              omega (
                arith,
                length-append (calls k) (calls v ++ field_calls fs),
                length-append (calls v) (field_calls fs),
              )))
            (rw
              (parse_fields-calls fs f rest (
                omega (
                  arith,
                  some_calls k,
                  length-append (calls k) (calls v ++ field_calls fs),
                  length-append (calls v) (field_calls fs),
                )))
              refl)))

pack_call : Call → Bytes
pack_call pack_nil = 0 ∷ 0 ∷ []
pack_call (pack_boolean b) = 1 ∷ (if b then 1 else 0) ∷ []
pack_call (pack_positive n) = 2 ∷ n ∷ []
pack_call (pack_negative n) = 3 ∷ n ∷ []
pack_call (pack_float n) = 4 ∷ n ∷ []
pack_call (pack_double n) = 5 ∷ n ∷ []
pack_call (pack_array n) = 6 ∷ n ∷ []
pack_call (pack_map n) = 7 ∷ n ∷ []
pack_call (pack_str s) = 8 ∷ length s ∷ s
pack_call (pack_bin s) = 9 ∷ length s ∷ s
pack_call (pack_ext t s) =
    suc (suc (suc (suc (suc (suc (suc (suc (suc (suc t))))))))) ∷ length s ∷ s

body : List Call → Bytes
body [] = []
body (c ∷ cs) = pack_call c ++ body cs

unpack_call : ℕ → ℕ → Bytes → Call × Bytes
unpack_call zero x r = (pack_nil, r)
unpack_call (suc zero) x r = (pack_boolean (ltb 0 x), r)
unpack_call (suc (suc zero)) x r = (pack_positive x, r)
unpack_call (suc (suc (suc zero))) x r = (pack_negative x, r)
unpack_call (suc (suc (suc (suc zero)))) x r = (pack_float x, r)
unpack_call (suc (suc (suc (suc (suc zero))))) x r = (pack_double x, r)
unpack_call (suc (suc (suc (suc (suc (suc zero)))))) x r = (pack_array x, r)
unpack_call (suc (suc (suc (suc (suc (suc (suc zero))))))) x r = (pack_map x, r)
unpack_call (suc (suc (suc (suc (suc (suc (suc (suc zero)))))))) x r =
    (pack_str (take x r), drop x r)
unpack_call (suc (suc (suc (suc (suc (suc (suc (suc (suc zero))))))))) x r =
    (pack_bin (take x r), drop x r)
unpack_call (suc (suc (suc (suc (suc (suc (suc (suc (suc (suc t)))))))))) x r =
    (pack_ext t (take x r), drop x r)

unpack_calls : ℕ → Bytes → List Call
unfolding unpack_call
unpack_calls zero bs = []
unpack_calls (suc f) [] = []
unpack_calls (suc f) (tag ∷ []) = []
unpack_calls (suc f) (tag ∷ x ∷ r) = let c = unpack_call tag x r in c.0 ∷ unpack_calls f c.1

unpack_calls-pack_call :
    (c : Call) (f : ℕ) (rest : Bytes)
    → unpack_calls (suc f) (pack_call c ++ rest) ≡ c ∷ unpack_calls f rest
unfolding unpack_calls unpack_call pack_call
unpack_calls-pack_call pack_nil f rest = refl
unpack_calls-pack_call (pack_boolean true) f rest = refl
unpack_calls-pack_call (pack_boolean false) f rest = refl
unpack_calls-pack_call (pack_positive n) f rest = refl
unpack_calls-pack_call (pack_negative n) f rest = refl
unpack_calls-pack_call (pack_float n) f rest = refl
unpack_calls-pack_call (pack_double n) f rest = refl
unpack_calls-pack_call (pack_array n) f rest = refl
unpack_calls-pack_call (pack_map n) f rest = refl
unpack_calls-pack_call (pack_str s) f rest = rw (take-append s rest, drop-append s rest) refl
unpack_calls-pack_call (pack_bin s) f rest = rw (take-append s rest, drop-append s rest) refl
unpack_calls-pack_call (pack_ext t s) f rest = rw (take-append s rest, drop-append s rest) refl

some_bytes : (c : Call) → 1 ≤ length (pack_call c)
unfolding pack_call
some_bytes pack_nil = omega arith
some_bytes (pack_boolean b) = omega arith
some_bytes (pack_positive n) = omega arith
some_bytes (pack_negative n) = omega arith
some_bytes (pack_float n) = omega arith
some_bytes (pack_double n) = omega arith
some_bytes (pack_array n) = omega arith
some_bytes (pack_map n) = omega arith
some_bytes (pack_str s) = omega arith
some_bytes (pack_bin s) = omega arith
some_bytes (pack_ext t s) = omega arith

unpack_calls-body : (cs : List Call) (f : ℕ) → length (body cs) ≤ f → unpack_calls f (body cs) ≡ cs
unfolding body unpack_calls
unpack_calls-body [] zero le = refl
unpack_calls-body [] (suc f) le = refl
unpack_calls-body (c ∷ cs) zero le =
    absurd (omega (arith, some_bytes c, length-append (pack_call c) (body cs)))
unpack_calls-body (c ∷ cs) (suc f) le =
    unpack_calls-pack_call c f (body cs)
    ∙ ap (λ t. c ∷ t)
        (unpack_calls-body cs f
          (omega (arith, some_bytes c, length-append (pack_call c) (body cs))))

-- The packer and the unpacker.
unfoldable pub pack : List Call → Bytes
unfolding body pack_call
pack cs = length (body cs) ∷ body cs

unfoldable pub next_object : Bytes → Unpacking Msg
unfolding unpack_calls parse
next_object [] = incomplete
next_object (n ∷ bs) =
    let cs = unpack_calls n (take n bs) in
    if ltb (length bs) n then incomplete else unpacked (parse (3 * length cs) cs).0 (suc n)

next_object-whole :
    (a : Msg) (rest : Bytes)
    → next_object (pack (calls a) ++ rest) ≡ unpacked a (length (pack (calls a)))
unfolding next_object pack
next_object-whole a rest =
    rw
      (
        le→ltb (length (body (calls a) ++ rest)) (length (body (calls a)))
            (omega (arith, length-append (body (calls a)) rest)),
        take-append (body (calls a)) rest,
        unpack_calls-body (calls a) (length (body (calls a))) (omega arith),
      )
      (ap (λ r. unpacked r.0 (suc (length (body (calls a))))) parsed)
  where
    parsed : parse (3 * length (calls a)) (calls a) ≡ (a, [])
    parsed =
        subst (λ cs. parse (3 * length (calls a)) cs ≡ (a, [])) (append-nil (calls a))
          (parse-calls a (3 * length (calls a)) [] (omega arith))

next_object-part : (bs p q : Bytes) → p ++ q ≡ length bs ∷ bs → q ≢ [] → next_object p ≡ incomplete
unfolding next_object
next_object-part bs [] q e ne = refl
next_object-part bs (n ∷ p) [] e ne = absurd (ne refl)
next_object-part bs (n ∷ p) (x ∷ q) e ne = rw short refl
  where
    split : (n ≡ length bs) × (p ++ x ∷ q ≡ bs)
    split = (cc, cc)

    short : ltb (length p) n ≡ true
    short = lt→ltb (length p) n (omega (arith, split.0, ap length split.1, length-append p (x ∷ q)))

pub next_object-IsUnpacker : IsUnpacker next_object (λ o. pack (calls o))
unfolding next_object pack
next_object-IsUnpacker = record {
  whole = next_object-whole;
  part = λ a p q e ne. next_object-part (body (calls a)) p q e ne;
  empty = refl;
  some_bytes = λ a. omega arith;
}
