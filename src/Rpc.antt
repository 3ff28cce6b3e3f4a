-- ===== src/Rpc.antt =====
-- core/rpc.go: the version counter and the handlers of Put, Get and Delete. The replicator is an
-- interface; `send` is `sendRequest`, with the error of its response. Logs and metrics are left out.
pub mod Versions
pub mod Handlers
pub mod Replication
pub mod StreamKv
use nawst.Base.{
  ℕ, ◌+◌, ◌%◌, Bool, true, false, Option, none, some, List, [], ◌∷◌, Bytes, ltb, leb, ◌==◌, ◌&&◌,
  if◌then◌else◌,
}
use nawst.Command.{Command, OpType, op_put, op_delete, Error, key_not_found, u64_mod}
use nawst.Store.{Got, missing, found}

-- The candidate of `NextVersion`: `cur` is the loaded counter and `now` the clock.
unfoldable pub next_version : ℕ → ℕ → ℕ
next_version cur now = if leb now cur then (cur + 1) % u64_mod else now

-- A round of the loop of `NextVersion`: the loaded value, which another goroutine may have replaced
-- since, and the clock.
pub record Round : Type 0 where
  pub loaded : ℕ
  pub now : ℕ

-- The versions that the rounds of all goroutines issue, in the order of their compare-and-swap; a
-- round that fails issues none.
unfoldable pub issued : ℕ → List Round → List ℕ
issued counter [] = []
issued counter (r ∷ rs) = elim (counter == r.loaded) [
  | true ↦ next_version r.loaded r.now ∷ issued (next_version r.loaded r.now) rs
  | false ↦ issued counter rs
]

-- What the handlers use of the replicator (cluster/replication.go). The error of `ReplicateToAll` is
-- a number.
pub record Replicator : Type 0 where
  pub check_ownership : Bytes → Bool × Bytes
  pub get_vnode_for_key : Bytes → ℕ
  pub replicate_to_all : Command → Option ℕ

pub data WriteReply : Type 0 where
  not_owner : Bytes → WriteReply
  failed_write failed_replication written_ok : WriteReply

module _ (rep : Replicator) where
  unfoldable pub request_of : OpType → Bytes → Bytes → ℕ → Command
  request_of op key value version = record {
    op = op;
    key = key;
    value = value;
    vnode_id = rep.get_vnode_for_key key;
    version = version;
  }

module _ (rep : Replicator) (send : Command → Option Error) where
  -- `sendRequest`, then `ReplicateToAll`.
  unfoldable pub send_and_replicate : Command → WriteReply
  send_and_replicate c = elim (send c) [
    | some e ↦ failed_write
    | none ↦ elim (rep.replicate_to_all c) [ some e ↦ failed_replication | none ↦ written_ok ]
  ]

  -- The body that `Put` and `Delete` share, with the counter after it.
  unfoldable pub serve_write : OpType → Bytes → Bytes → ℕ → ℕ → ℕ × WriteReply
  serve_write op key value counter now =
      let version = next_version counter now in
      if (rep.check_ownership key).0
      then (version, send_and_replicate (request_of rep op key value version))
      else (counter, not_owner (rep.check_ownership key).1)

  abbrev pub put : Bytes → Bytes → ℕ → ℕ → ℕ × WriteReply
  put key value counter now = serve_write op_put key value counter now

  abbrev pub delete : Bytes → ℕ → ℕ → ℕ × WriteReply
  delete key counter now = serve_write op_delete key [] counter now

pub data GetReply : Type 0 where
  not_found_reply internal_reply stale_reply : GetReply
  value_reply : Bytes → ℕ → GetReply

-- `Get` on the answer of the event loop; `none` is a request that was cancelled.
unfoldable pub get : Option Got → ℕ → GetReply
get none min_version = internal_reply
get (some (missing key_not_found)) min_version = not_found_reply
get (some (missing e)) min_version = internal_reply
get (some (found v version)) min_version =
    if ltb 0 min_version && ltb version min_version then stale_reply else value_reply v version
