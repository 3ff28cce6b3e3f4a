-- ===== src/Wal/Codec.antt =====
-- The bytes of one record: op, vnode (2 bytes), version (8 bytes), key length, key, value length,
-- value; and the reads of `ReplayWal`, in its order.
use nawst.Base.{
  ℕ, zero, suc, ◌+◌, ◌*◌, ◌/◌, ◌%◌, ◌<◌, [], ◌∷◌, ◌++◌, Bytes, ltb, leb, ◌==◌, ◌&&◌, if◌then◌else◌,
  length, take, drop, foldl,
}
use nawst.Command.{Command, u64_mod}

-- `binary.BigEndian.PutUint16` and `PutUint64`: `n` bytes, the highest first.
unfoldable pub put_uint : ℕ → ℕ → Bytes
put_uint zero v = []
put_uint (suc n) v = put_uint n (v / 256) ++ ((v % 256) ∷ [])

-- `binary.BigEndian.Uint16` and `Uint64`.
abbrev pub get_uint : Bytes → ℕ
get_uint = foldl (λ acc b. acc * 256 + b) 0

-- `binary.PutUvarint`. A uint64 takes at most ten bytes: after `n` = 9 rounds less than 2 is left.
unfoldable pub put_uvarint_in : ℕ → ℕ → Bytes
put_uvarint_in zero x = x ∷ []
put_uvarint_in (suc n) x =
    let rest = put_uvarint_in n (x / 128) in if ltb x 128 then x ∷ [] else (x % 128 + 128) ∷ rest

abbrev pub put_uvarint : ℕ → Bytes
put_uvarint x = put_uvarint_in 9 x

unfoldable pub encode : Command → Bytes
encode c =
    (c.op % 256)
    ∷ (put_uint 2 c.vnode_id
        ++ (put_uint 8 c.version
            ++ (put_uvarint (length c.key)
                ++ (c.key ++ (put_uvarint (length c.value) ++ c.value)))))

pub data ReadError : Type 0 where
  eof unexpected_eof overflow : ReadError

pub data Read {ℓ} (A : Type ℓ) : Type ℓ where
  ok : A → Bytes → Read A
  err : ReadError → Read A

infixl 5 ◌>>=◌
abbrev pub ◌>>=◌ {ℓ κ} : {A : Type ℓ} {B : Type κ} → Read A → (A × Bytes → Read B) → Read B
ok a rest >>= f = f (a, rest)
err e >>= f = err e

unfoldable pub read_byte : Bytes → Read ℕ
read_byte [] = err eof
read_byte (b ∷ bs) = ok b bs

-- `io.ReadFull(r, make([]byte, n))`.
unfoldable pub read_full : ℕ → Bytes → Read Bytes
read_full n bs =
    if leb n (length bs)
    then ok (take n bs) (drop n bs)
    else if length bs == 0
    then err eof
    else err unexpected_eof

-- `binary.ReadUvarint`: `left` of the ten rounds are left, and `weight` is `1 << s`.
unfoldable pub read_uvarint_in : ℕ → ℕ → ℕ → Bytes → Read ℕ
read_uvarint_in zero x weight bs = err overflow
read_uvarint_in (suc left) x weight [] = if left == 9 then err eof else err unexpected_eof
read_uvarint_in (suc left) x weight (b ∷ bs) =
    let more = read_uvarint_in left (x + b % 128 * weight) (weight * 128) bs in
    if ltb b 128
    then if left == 0 && ltb 1 b then err overflow else ok (x + b * weight) bs
    else more

abbrev pub read_uvarint : Bytes → Read ℕ
read_uvarint bs = read_uvarint_in 10 0 1 bs

-- The body of the loop of `ReplayWal` after the first byte, up to the call of `apply`.
unfoldable pub read_rest : ℕ → Bytes → Read Command
read_rest op bs = do
  (vnode, r1) ← read_full 2 bs
  (version, r2) ← read_full 8 r1
  (key_len, r3) ← read_uvarint r2
  (key, r4) ← read_full key_len r3
  (val_len, r5) ← read_uvarint r4
  (val, r6) ← read_full val_len r5
  ok
      (record {
        op = op;
        key = key;
        value = val;
        vnode_id = get_uint vnode;
        version = get_uint version;
      })
      r6

-- What Go's types allow: a uint8, a uint16 and a uint64, and lengths that an `int` holds.
pub record IsCommand (c : Command) : Type 0 where
  pub op_fits : c.op < 256
  pub vnode_fits : c.vnode_id < 65536
  pub version_fits : c.version < u64_mod
  pub key_fits : length c.key < u64_mod
  pub value_fits : length c.value < u64_mod
