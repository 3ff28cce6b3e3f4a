-- ===== src/Wal/Readers.antt =====
-- core/wal.go: the reads of `ReplayWal` take bytes from the front and do not look past them.
use nawst.Base.{
  ℕ, zero, suc, ◌+◌, ◌*◌, ◌%◌, ◌≤◌, ◌≡◌, refl, ap, [], ◌∷◌, ◌++◌, Bytes, length, arith,
  length-append, take, drop,
}
use nawst.Wal.Codec.{Read, ok, err, ◌>>=◌, read_full, read_uvarint_in, read_uvarint, read_rest}

pub record IsReader {A : Type 0} (p : Bytes → Read A) : Type 0 where
  pub steady :
      (bs : Bytes) (a : A) (rest more : Bytes)
      → p bs ≡ ok a rest
      → p (bs ++ more) ≡ ok a (rest ++ more)
  pub shrinks : (bs : Bytes) (a : A) (rest : Bytes) → p bs ≡ ok a rest → length rest ≤ length bs

ok_parts : {A : Type 0} (a b : A) (r t : Bytes) → ok a r ≡ ok b t → (a ≡ b) × (r ≡ t)
ok_parts a b r t h = (cc, cc)

-- The result of `m >>= f` as an equation of its parts.
>>=-eq-ok :
    {A B : Type 0} (m : Read A) (f : A × Bytes → Read B) (b : B) (rest : Bytes)
    → (m >>= f) ≡ ok b rest
    → (a : A) × (r : Bytes) × (m ≡ ok a r) × (f (a, r) ≡ ok b rest)
>>=-eq-ok (ok a r) f b rest h = (a, r, refl, h)
>>=-eq-ok (err e) f b rest h = cc

module _ {A B : Type 0} (p : Bytes → Read A) (q : A → Bytes → Read B) where
  pub IsReader-bind :
      IsReader p → ((a : A) → IsReader (q a)) → IsReader (λ bs. p bs >>= λ t. q t.0 t.1)
  IsReader-bind hp hq = record {
    steady = λ bs b rest more h.
        let (a, r, e, f) = >>=-eq-ok (p bs) (λ t. q t.0 t.1) b rest h in
        rw (hp.steady bs a r more e) ((hq a).steady r b rest more f);
    shrinks = λ bs b rest h.
        let (a, r, e, f) = >>=-eq-ok (p bs) (λ t. q t.0 t.1) b rest h in
        omega (arith, hp.shrinks bs a r e, (hq a).shrinks r b rest f);
  }

pub IsReader-ok : {A : Type 0} (a : A) → IsReader (ok a)
IsReader-ok a = record {
  steady = λ bs b rest more h. ground arith;
  shrinks = λ bs b rest h. omega (arith, ap length (ok_parts a b bs rest h).1);
}

take-append_le : (n : ℕ) (bs more : Bytes) → n ≤ length bs → take n (bs ++ more) ≡ take n bs
take-append_le zero bs more h = refl
take-append_le (suc n) [] more h = absurd (omega arith)
take-append_le (suc n) (b ∷ bs) more h = ap (λ t. b ∷ t) (take-append_le n bs more (omega arith))

drop-append_le : (n : ℕ) (bs more : Bytes) → n ≤ length bs → drop n (bs ++ more) ≡ drop n bs ++ more
drop-append_le zero bs more h = refl
drop-append_le (suc n) [] more h = absurd (omega arith)
drop-append_le (suc n) (b ∷ bs) more h = drop-append_le n bs more (omega arith)

length-drop-le : (n : ℕ) (bs : Bytes) → length (drop n bs) ≤ length bs
length-drop-le zero bs = omega arith
length-drop-le (suc n) [] = omega arith
length-drop-le (suc n) (b ∷ bs) = omega (arith, length-drop-le n bs)

pub read_full-IsReader : (n : ℕ) → IsReader (read_full n)
unfolding read_full
read_full-IsReader n = record {
  steady = λ bs a rest more h.
      ground (arith, length-append bs more, take-append_le n bs more, drop-append_le n bs more);
  shrinks = λ bs a rest h. ground (arith, length-drop-le n bs);
}

uvarint_steady :
    (left x weight : ℕ) (bs : Bytes) (a : ℕ) (rest more : Bytes)
    → read_uvarint_in left x weight bs ≡ ok a rest
    → read_uvarint_in left x weight (bs ++ more) ≡ ok a (rest ++ more)
unfolding read_uvarint_in
uvarint_steady zero x weight bs a rest more h = cc
uvarint_steady (suc left) x weight [] a rest more h = ground arith
uvarint_steady (suc left) x weight (b ∷ bs) a rest more h =
    ground (arith, uvarint_steady left (x + b % 128 * weight) (weight * 128) bs a rest more)

uvarint_shrinks :
    (left x weight : ℕ) (bs : Bytes) (a : ℕ) (rest : Bytes)
    → read_uvarint_in left x weight bs ≡ ok a rest
    → length rest ≤ length bs
unfolding read_uvarint_in
uvarint_shrinks zero x weight bs a rest h = cc
uvarint_shrinks (suc left) x weight [] a rest h = ground arith
uvarint_shrinks (suc left) x weight (b ∷ bs) a rest h =
    ground (arith, uvarint_shrinks left (x + b % 128 * weight) (weight * 128) bs a rest)

pub read_uvarint-IsReader : IsReader read_uvarint
read_uvarint-IsReader = record { steady = uvarint_steady 10 0 1; shrinks = uvarint_shrinks 10 0 1 }

pub read_rest-IsReader : (op : ℕ) → IsReader (read_rest op)
unfolding read_rest
read_rest-IsReader op = IsReader-bind (read_full 2) _ (read_full-IsReader 2) λ vnode.
    IsReader-bind (read_full 8) _ (read_full-IsReader 8) λ version.
      IsReader-bind read_uvarint _ read_uvarint-IsReader λ key_len.
        IsReader-bind (read_full key_len) _ (read_full-IsReader key_len) λ key.
          IsReader-bind read_uvarint _ read_uvarint-IsReader λ val_len.
            IsReader-bind (read_full val_len) _ (read_full-IsReader val_len) λ val. IsReader-ok _
