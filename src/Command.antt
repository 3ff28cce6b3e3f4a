-- ===== src/Command.antt =====
-- core/loop.go: operations and commands; core/errors.go: the errors of the store.
use nawst.Base.{ℕ, ◌^◌, Bytes}

-- `OpType` is a uint8, and the log can hold any byte.
abbrev pub OpType : Type 0
OpType = ℕ

abbrev pub op_put : OpType
op_put = 0

abbrev pub op_get : OpType
op_get = 1

abbrev pub op_delete : OpType
op_delete = 2

pub record Command : Type 0 where
  pub op : OpType
  pub key : Bytes
  pub value : Bytes
  pub vnode_id : ℕ
  pub version : ℕ

pub data Error : Type 0 where
  key_not_found invalid_key invalid_operation : Error

abbrev pub u64_mod : ℕ
u64_mod = 2 ^ 64
