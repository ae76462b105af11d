-- ===== src/Wal/Object/Laws.antt =====
-- A Groonga object is read back from what was written for it.
use pgroonga.Base.{
  ℕ, ◌-◌, ◌^◌, ◌<◌, ◌≡◌, refl, subst, Bytes, [], ◌++◌, length, append-nil, leb, Option, none, some,
  arith, false,
}
use pgroonga.Wal.Raw.{read_u32, u32}
use pgroonga.Wal.Raw.Parses.{
  Parses, Parses-pure, Parses-bind, Parses-bind_pure, Parses-read_u32, Parses-refer,
}
use pgroonga.Wal.Raw.Extends.{Extends, Extends-bind, Extends-read_u32, extends_rules}
use pgroonga.Wal.Object.{
  GrnObj, text_bulk, named, write_grn_obj, read_value, read_grn_obj, loaded, IsSmall,
}

Parses-value : (bs : Bytes) → length bs < 2 ^ 31 → Parses (read_value (length bs)) bs (some bs)
unfolding read_value
Parses-value bs h =
    let small : leb (2 ^ 31) (length bs) ≡ false = ground arith in
    rw small (Parses-bind_pure some (Parses-refer bs refl))

Parses-sized :
    (bs : Bytes) → length bs < 2 ^ 31 → Parses read_grn_obj (u32 (length bs) ++ bs) (some bs)
unfolding read_grn_obj
Parses-sized bs h =
    Parses-bind read_value (Parses-read_u32 (length bs) (omega arith)) (Parses-value bs h)

Parses-void : Parses read_grn_obj (u32 (2 ^ 32 - 1) ++ []) none
unfolding read_grn_obj
Parses-void =
    Parses-bind read_value (Parses-read_u32 (2 ^ 32 - 1) (omega arith))
      (unfold read_value in Parses-pure none)

pub Parses-grn_obj :
    (o : Option GrnObj) → IsSmall o → Parses read_grn_obj (write_grn_obj o) (loaded o)
unfolding write_grn_obj
Parses-grn_obj (some (text_bulk value)) h = Parses-sized value h
Parses-grn_obj (some (named name)) h = Parses-sized name h
Parses-grn_obj none h =
    subst (λ bs. Parses read_grn_obj bs none) (append-nil (u32 (2 ^ 32 - 1))) Parses-void

Extends-value : (size : ℕ) → Extends (read_value size)
unfolding read_value
Extends-value size = search extends_rules

pub Extends-grn_obj : Extends read_grn_obj
unfolding read_grn_obj
Extends-grn_obj = Extends-bind read_u32 read_value Extends-read_u32 Extends-value
