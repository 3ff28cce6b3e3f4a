-- ===== src/Wal/RoundTrip.antt =====
-- core/wal.go: the reads of `ReplayWal` on an encoded record.
use nawst.Base.{
  ℕ, zero, suc, ◌+◌, ◌*◌, ◌/◌, ◌%◌, ◌^◌, ◌<◌, ◌≡◌, refl, ap, ◌∙◌, [], ◌∷◌, ◌++◌, Bytes, ltb, length,
  arith, length-append, take-append, drop-append, inl, inr, Bool-cases,
}
use mathlib.Core.List.{foldl-append, append_assoc}
use native.Mathlib.Nat.{div-add-mod, pow-suc}
use nawst.Command.{Command, u64_mod}
use nawst.Wal.Codec.{
  put_uint, get_uint, put_uvarint_in, put_uvarint, encode, ok, read_full, read_uvarint_in,
  read_uvarint, read_rest, IsCommand,
}

pub length-put_uint : (n v : ℕ) → length (put_uint n v) ≡ n
unfolding put_uint
length-put_uint zero v = refl
length-put_uint (suc n) v =
    omega
      (arith, length-append (put_uint n (v / 256)) ((v % 256) ∷ []), length-put_uint n (v / 256))

get_uint-put_uint : (n v : ℕ) → v < 256 ^ n → get_uint (put_uint n v) ≡ v
unfolding put_uint
get_uint-put_uint zero v h = omega arith
get_uint-put_uint (suc n) v h =
    foldl-append _ 0 (put_uint n (v / 256)) ((v % 256) ∷ [])
    ∙ omega (arith, get_uint-put_uint n (v / 256) (omega (arith, pow-suc 256 n)))

read_full-append : (n : ℕ) (xs rest : Bytes) → length xs ≡ n → read_full n (xs ++ rest) ≡ ok xs rest
unfolding read_full
read_full-append n xs rest h =
    rw (← h) (ground (arith, length-append xs rest, take-append xs rest, drop-append xs rest))

split_weight : (v w : ℕ) → v % 128 * w + v / 128 * (w * 128) ≡ v * w
split_weight v w = omega (arith, ap (λ (t : ℕ). t * w) (div-add-mod v 128))

read_uvarint-put :
    (k v x weight : ℕ) (rest : Bytes)
    → v < 2 * 128 ^ k
    → read_uvarint_in (suc k) x weight (put_uvarint_in k v ++ rest) ≡ ok (x + v * weight) rest
unfolding read_uvarint_in put_uvarint_in
read_uvarint-put zero v x weight rest h = ground arith
read_uvarint-put (suc k) v x weight rest h = elim (Bool-cases (ltb v 128)) [
  | inl p ↦ rw p (ground arith)
  | inr p ↦ rw p (
      ground (
        arith,
        split_weight v weight,
        pow-suc 128 k,
        read_uvarint-put k (v / 128) (x + v % 128 * weight) (weight * 128) rest,
      ))
]

pub read_uvarint_lem :
    (v : ℕ) (rest : Bytes) → v < u64_mod → read_uvarint (put_uvarint v ++ rest) ≡ ok v rest
read_uvarint_lem v rest h = ground (arith, read_uvarint-put 9 v 0 1 rest)

read_full-put_uint :
    (n v : ℕ) (rest : Bytes) → read_full n (put_uint n v ++ rest) ≡ ok (put_uint n v) rest
read_full-put_uint n v rest = read_full-append n (put_uint n v) rest (length-put_uint n v)

read_full_self : (xs rest : Bytes) → read_full (length xs) (xs ++ rest) ≡ ok xs rest
read_full_self xs rest = read_full-append (length xs) xs rest refl

-- What stands behind the first byte of a record, bracketed to the right.
abbrev body : Command → Bytes → Bytes
body c rest =
    put_uint 2 c.vnode_id
    ++ (put_uint 8 c.version
        ++ (put_uvarint (length c.key)
            ++ (c.key ++ (put_uvarint (length c.value) ++ (c.value ++ rest)))))

encode-append : (c : Command) (rest : Bytes) → encode c ++ rest ≡ (c.op % 256) ∷ body c rest
unfolding encode
encode-append c rest = simp append_assoc

read_rest-body :
    (c : Command) (rest : Bytes) → IsCommand c → read_rest c.op (body c rest) ≡ ok c rest
unfolding read_rest
read_rest-body c rest h = simp (
  read_full-put_uint,
  read_full_self,
  read_uvarint_lem (length c.key) (c.key ++ (put_uvarint (length c.value) ++ (c.value ++ rest)))
      h.key_fits,
  read_uvarint_lem (length c.value) (c.value ++ rest) h.value_fits,
  get_uint-put_uint 2 c.vnode_id h.vnode_fits,
  get_uint-put_uint 8 c.version h.version_fits,
)

-- For a command within the range of its Go types, the first byte of its record is its op, and the
-- reads of `ReplayWal` on the remaining bytes return the command and exactly what follows the record.
pub read-encode :
    (c : Command) (rest : Bytes)
    → IsCommand c
    → (tail : Bytes) × (encode c ++ rest ≡ c.op ∷ tail) × (read_rest c.op tail ≡ ok c rest)
read-encode c rest h = (
  body c rest,
  encode-append c rest ∙ ap (λ o. o ∷ body c rest) (omega (arith, h.op_fits)),
  read_rest-body c rest h,
)
