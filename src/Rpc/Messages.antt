-- ===== src/Rpc/Messages.antt =====
-- src/nfs/rpc.ts: call and reply messages. A number is one of 32 bits at a setter of the host.
pub mod Calls
pub mod Direction
pub mod Header
pub mod Replies
pub mod Tests
use mountx.Common.{
  ℕ, zero, suc, ◌+◌, ◌-◌, ◌*◌, ◌%◌, ◌^◌, Bool, true, false, not, Option, none, some, List, [], ◌∷◌,
  ◌++◌, ◌==◌, nat_eq, if◌then◌else◌, length, replicate,
}
use mountx.Common.Result.{Result, ok, err, ◌>>=◌}
use mountx.Xdr.{
  Bytes, XdrError, not_a_call, not_a_reply, unknown_status, XdrReader, Read, new_reader, u32, to_be,
}
use mountx.Xdr.Writer.{XdrWriter, new_writer, written, write_u32, write_raw, set_at}
use mountx.Rpc.Auth.{OpaqueAuth, auth_null, auth_none, read_auth, write_auth}

abbrev pub rpc_version : ℕ
rpc_version = 2

abbrev pub rpc_call : ℕ
rpc_call = 0

abbrev pub rpc_reply : ℕ
rpc_reply = 1

abbrev pub msg_accepted : ℕ
msg_accepted = 0

abbrev pub msg_denied : ℕ
msg_denied = 1

abbrev pub rpc_success : ℕ
rpc_success = 0

abbrev pub rpc_mismatch : ℕ
rpc_mismatch = 0

abbrev pub rpc_auth_error : ℕ
rpc_auth_error = 1

pub record RpcCall : Type 0 where
  pub xid : ℕ
  pub rpc_version : ℕ
  pub program : ℕ
  pub version : ℕ
  pub procedure : ℕ
  pub cred : OpaqueAuth
  pub verf : OpaqueAuth

abbrev pub call_body : ℕ → Read RpcCall
call_body xid r = do
  (version_of_rpc, r) ← u32 r
  (program, r) ← u32 r
  (version, r) ← u32 r
  (procedure, r) ← u32 r
  (cred, r) ← read_auth r
  (verf, r) ← read_auth r
  ok (
    record {
      xid = xid;
      rpc_version = version_of_rpc;
      program = program;
      version = version;
      procedure = procedure;
      cred = cred;
      verf = verf;
    },
    r,
  )

abbrev pub call_typed : ℕ → ℕ → Read RpcCall
call_typed xid type r = if type == rpc_call then call_body xid r else err (not_a_call type 4)

abbrev pub read_call : Read RpcCall
read_call r = do (xid, r) ← u32 r; (type, r) ← u32 r; call_typed xid type r

unfoldable pub decode_call : Bytes → Result XdrError (RpcCall × XdrReader)
decode_call bytes = read_call (new_reader bytes 0)

pub record RpcCallOptions : Type 0 where
  pub xid : ℕ
  pub program : ℕ
  pub version : ℕ
  pub procedure : ℕ
  pub cred : Option OpaqueAuth
  pub verf : Option OpaqueAuth
  pub args : Option Bytes

-- `auth ?? AUTH_NULL`, and the bytes of an optional argument.
abbrev pub or_null : Option OpaqueAuth → OpaqueAuth
or_null none = auth_null
or_null (some auth) = auth

abbrev pub or_empty : Option Bytes → Bytes
or_empty none = []
or_empty (some bytes) = bytes

abbrev pub write_args : Option Bytes → XdrWriter → XdrWriter
write_args none w = w
write_args (some args) w = write_raw args w

abbrev pub write_call : RpcCallOptions → XdrWriter → XdrWriter
write_call options w =
    let w = write_u32 rpc_version (write_u32 rpc_call (write_u32 options.xid w)) in
    let w = write_u32 options.version (write_u32 options.program w) in
    let w = write_auth (or_null options.cred) (write_u32 options.procedure w) in
    write_args options.args (write_auth (or_null options.verf) w)

unfoldable pub encode_call : RpcCallOptions → Bytes
encode_call options =
    written (write_call options (new_writer (128 + length (or_empty options.args))))

pub record RpcReply : Type 0 where
  pub xid : ℕ
  pub reply_stat : ℕ
  pub accept_stat : Option ℕ
  pub reject_stat : Option ℕ
  pub auth_stat : Option ℕ
  pub low : Option ℕ
  pub high : Option ℕ
  pub verf : Option OpaqueAuth

abbrev pub bare_reply : ℕ → ℕ → RpcReply
bare_reply xid reply_stat = record {
  xid = xid;
  reply_stat = reply_stat;
  accept_stat = none;
  reject_stat = none;
  auth_stat = none;
  low = none;
  high = none;
  verf = none;
}

abbrev pub read_range : RpcReply → Read RpcReply
read_range reply r = do
  (low, r) ← u32 r
  (high, r) ← u32 r
  ok (record reply { low = some low; high = some high }, r)

abbrev pub read_accepted_body : RpcReply → ℕ → Read RpcReply
read_accepted_body reply accept_stat r =
    let reply = record reply { accept_stat = some accept_stat } in
    if accept_stat == 2 then read_range reply r else ok (reply, r)

abbrev pub read_accepted : RpcReply → Read RpcReply
read_accepted reply r = do
  (verf, r) ← read_auth r
  (accept_stat, r) ← u32 r
  read_accepted_body (record reply { verf = some verf }) accept_stat r

abbrev pub read_denied_body : RpcReply → ℕ → Read RpcReply
read_denied_body reply reject_stat r =
    let reply = record reply { reject_stat = some reject_stat } in
    if reject_stat == rpc_mismatch
    then read_range reply r
    else if reject_stat == rpc_auth_error
    then (do (auth_stat, r) ← u32 r; ok (record reply { auth_stat = some auth_stat }, r))
    else err (unknown_status reject_stat)

abbrev pub read_denied : RpcReply → Read RpcReply
read_denied reply r = do (reject_stat, r) ← u32 r; read_denied_body reply reject_stat r

abbrev pub reply_body : ℕ → ℕ → Read RpcReply
reply_body xid reply_stat r =
    if reply_stat == msg_accepted
    then read_accepted (bare_reply xid reply_stat) r
    else if reply_stat == msg_denied
    then read_denied (bare_reply xid reply_stat) r
    else err (unknown_status reply_stat)

abbrev pub reply_typed : ℕ → ℕ → Read RpcReply
reply_typed xid type r =
    if type == rpc_reply
    then (do (reply_stat, r) ← u32 r; reply_body xid reply_stat r)
    else err (not_a_reply type 4)

abbrev pub read_reply : Read RpcReply
read_reply r = do (xid, r) ← u32 r; (type, r) ← u32 r; reply_typed xid type r

unfoldable pub decode_reply : Bytes → Result XdrError (RpcReply × XdrReader)
decode_reply bytes = read_reply (new_reader bytes 0)

abbrev pub accepted_reply_header_size : ℕ
accepted_reply_header_size = 24

-- The words that every reply starts with, and those of an accepted one.
abbrev pub write_reply : ℕ → ℕ → XdrWriter → XdrWriter
write_reply xid reply_stat w = write_u32 reply_stat (write_u32 rpc_reply (write_u32 xid w))

abbrev pub write_accepted : ℕ → ℕ → XdrWriter → XdrWriter
write_accepted xid accept_stat w =
    write_u32 accept_stat (write_auth auth_null (write_reply xid msg_accepted w))

unfoldable pub write_accepted_reply_header : ℕ → XdrWriter → XdrWriter
write_accepted_reply_header xid w = write_accepted xid rpc_success w

-- `view.setUint32(at, value, false)`
abbrev pub set_uint32 : ℕ → ℕ → Bytes → Bytes
set_uint32 at value out = set_at at (to_be 4 (value % 2 ^ 32)) out

pub encode_accepted_reply : ℕ → Option Bytes → Bytes
encode_accepted_reply xid results =
    let out = replicate (accepted_reply_header_size + length (or_empty results)) 0 in
    let out = set_uint32 4 rpc_reply (set_uint32 0 xid out) in
    let out = set_uint32 12 auth_none (set_uint32 8 msg_accepted out) in
    let out = set_uint32 20 rpc_success out in
    elim results [ none ↦ out | some bytes ↦ set_at accepted_reply_header_size bytes out ]

abbrev pub write_mismatch : Option (ℕ × ℕ) → XdrWriter → XdrWriter
write_mismatch none w = w
write_mismatch (some (low, high)) w = write_u32 high (write_u32 low w)

pub encode_accept_error : ℕ → ℕ → Option (ℕ × ℕ) → Bytes
encode_accept_error xid accept_stat mismatch =
    written (write_mismatch mismatch (write_accepted xid accept_stat (new_writer 48)))

pub encode_auth_error : ℕ → ℕ → Bytes
encode_auth_error xid auth_stat =
    written
      (write_u32 auth_stat (write_u32 rpc_auth_error (write_reply xid msg_denied (new_writer 32))))

-- A bound that is not given is the version of RPC.
abbrev pub or_version : Option ℕ → ℕ
or_version none = rpc_version
or_version (some version) = version

pub encode_rpc_mismatch : ℕ → Option ℕ → Option ℕ → Bytes
encode_rpc_mismatch xid low high = written (
    write_u32 (or_version high) (
      write_u32 (or_version low)
        (write_u32 rpc_mismatch (write_reply xid msg_denied (new_writer 32)))))
