-- ===== src/Rpc/Auth.antt =====
-- src/nfs/rpc.ts: credentials. The host's UTF-8 codec, and the ids of its process, are parameters.
-- `AUTH_SHORT` and the names of the statuses that no function reads are left out.
pub mod Laws
use mountx.Common.{
  ℕ, zero, suc, ◌+◌, ◌*◌, ◌^◌, Bool, true, false, not, Option, none, some, List, [], ◌∷◌, ◌++◌,
  ◌==◌, nat_eq, if◌then◌else◌, length, take,
}
use mountx.Common.Result.{Result, ok, err, ◌>>=◌}
use mountx.Xdr.{Bytes, XdrError, XdrReader, Read, new_reader, u32, var_opaque, string, array}
use mountx.Xdr.Writer.{
  XdrWriter, new_writer, written, write_u32, write_var_opaque, write_string, write_array,
}

abbrev pub auth_none : ℕ
auth_none = 0

abbrev pub auth_sys_flavor : ℕ
auth_sys_flavor = 1

abbrev pub rpc_max_auth_bytes : ℕ
rpc_max_auth_bytes = 400

pub record OpaqueAuth : Type 0 where
  pub flavor : ℕ
  pub body : Bytes

abbrev pub auth_null : OpaqueAuth
auth_null = record { flavor = auth_none; body = [] }

pub record AuthSysParams (Text : Type 0) : Type 0 where
  pub stamp : ℕ
  pub machine_name : Text
  pub uid : ℕ
  pub gid : ℕ
  pub gids : List ℕ

abbrev pub write_auth_sys :
    {Text : Type 0} → (Text → Bytes) → AuthSysParams Text → XdrWriter → XdrWriter
write_auth_sys encode params w =
    let w = write_string encode params.machine_name (write_u32 params.stamp w) in
    write_array write_u32 (take 16 params.gids) (write_u32 params.gid (write_u32 params.uid w))

unfoldable pub encode_auth_sys : {Text : Type 0} → (Text → Bytes) → AuthSysParams Text → Bytes
encode_auth_sys encode params = written (write_auth_sys encode params (new_writer 64))

abbrev pub read_auth_sys : {Text : Type 0} → (Bytes → Text) → Read (AuthSysParams Text)
read_auth_sys decode r = do
  (stamp, r) ← u32 r
  (machine_name, r) ← string decode 255 r
  (uid, r) ← u32 r
  (gid, r) ← u32 r
  (gids, r) ← array u32 16 r
  ok (record { stamp = stamp; machine_name = machine_name; uid = uid; gid = gid; gids = gids }, r)

unfoldable pub decode_auth_sys :
    {Text : Type 0} → (Bytes → Text) → Bytes → Result XdrError (AuthSysParams Text)
decode_auth_sys decode body = do (params, r) ← read_auth_sys decode (new_reader body 0); ok params

-- The default of an id is the process's, and 0 on a host that has none.
abbrev pub own_id : Option ℕ → Option ℕ → ℕ
own_id process none = elim process [ none ↦ 0 | some id ↦ id ]
own_id process (some id) = id

module _ {Text : Type 0} (encode : Text → Bytes) (process_uid process_gid : Option ℕ) where
  unfoldable pub auth_sys : Option ℕ → Option ℕ → Text → OpaqueAuth
  auth_sys uid gid machine_name = record {
    flavor = auth_sys_flavor;
    body = encode_auth_sys encode (record {
      stamp = 0;
      machine_name = machine_name;
      uid = own_id process_uid uid;
      gid = own_id process_gid gid;
      gids = [];
    });
  }

pub record RpcCredentials : Type 0 where
  pub flavor : ℕ
  pub uid : Option ℕ
  pub gid : Option ℕ
  pub gids : List ℕ

abbrev pub anonymous : ℕ → RpcCredentials
anonymous flavor = record { flavor = flavor; uid = none; gid = none; gids = [] }

unfoldable pub credentials_of : {Text : Type 0} → (Bytes → Text) → OpaqueAuth → RpcCredentials
credentials_of decode cred =
    if cred.flavor == auth_sys_flavor
    then elim (decode_auth_sys decode cred.body) [
      | ok parsed ↦ record {
        flavor = cred.flavor;
        uid = some parsed.uid;
        gid = some parsed.gid;
        gids = parsed.gids;
      }
      | err thrown ↦ anonymous cred.flavor
    ]
    else anonymous cred.flavor

unfoldable pub read_auth : Read OpaqueAuth
read_auth r = do
  (flavor, r) ← u32 r
  (body, r) ← var_opaque rpc_max_auth_bytes r
  ok (record { flavor = flavor; body = body }, r)

unfoldable pub write_auth : OpaqueAuth → XdrWriter → XdrWriter
write_auth auth w = write_var_opaque auth.body (write_u32 auth.flavor w)
