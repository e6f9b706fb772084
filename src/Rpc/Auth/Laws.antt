-- ===== src/Rpc/Auth/Laws.antt =====
-- Credentials that are written are read back.
use mountx.Common.{
  ℕ, ◌%◌, ◌^◌, ◌<◌, ◌≤◌, ◌≡◌, refl, subst, List, [], ◌++◌, length, take, arith, length-take,
  append-nil, All, All-take, Option, some, nat_eq,
}
use mountx.Common.Result.{ok}
use mountx.Xdr.{Bytes, u32, var_opaque, string, array}
use mountx.Xdr.Numbers.{length-to_be}
use mountx.Xdr.Writer.{XdrWriter, write_u32, write_var_opaque, write_string, write_array}
use mountx.Xdr.Writer.Refinement.{Appends, Appends-then, write_u32-Appends}
use mountx.Xdr.Writer.Spans.{
  var_opaque_bytes, array_bytes, write_var_opaque-Appends, write_array-Appends,
  write_string-Appends,
}
use mountx.Xdr.Reads.{Reads, var_opaque-Reads}
use mountx.Xdr.RoundTrip.{array-Reads}
use mountx.Xdr.Chains.{
  Reads-done, Reads-then, Appends-done, word_bytes, word-Reads, word-then, string-Reads,
  written-Appends, whole-Reads,
}
use mountx.Rpc.Auth.{
  OpaqueAuth, AuthSysParams, auth_sys_flavor, encode_auth_sys, decode_auth_sys, read_auth_sys,
  write_auth_sys, read_auth, write_auth, credentials_of, own_id, auth_sys,
}

abbrev pub auth_bytes : OpaqueAuth → Bytes
auth_bytes auth = word_bytes auth.flavor ++ var_opaque_bytes auth.body

-- A flavor of 32 bits and a body that a reader takes.
pub record IsAuth (auth : OpaqueAuth) : Type 0 where
  pub flavor : auth.flavor < 2 ^ 32
  pub body : length auth.body ≤ 400

pub write_auth-Appends : (auth : OpaqueAuth) → Appends (write_auth auth) (auth_bytes auth)
unfolding write_auth
write_auth-Appends auth =
    Appends-then (write_u32 auth.flavor) (write_var_opaque auth.body) (word_bytes auth.flavor)
      (var_opaque_bytes auth.body) (write_u32-Appends auth.flavor)
      (write_var_opaque-Appends auth.body)

pub auth-then :
    (auth : OpaqueAuth) (later : XdrWriter → XdrWriter) (ys : Bytes)
    → Appends later ys
    → Appends (λ w. later (write_auth auth w)) (auth_bytes auth ++ ys)
auth-then auth later ys appends =
    Appends-then (write_auth auth) later (auth_bytes auth) ys (write_auth-Appends auth) appends

pub read_auth-Reads : (auth : OpaqueAuth) → IsAuth auth → Reads read_auth (auth_bytes auth) auth
unfolding read_auth
read_auth-Reads auth good =
    subst (λ bs. Reads read_auth (word_bytes auth.flavor ++ bs) auth)
      (append-nil (var_opaque_bytes auth.body))
      (Reads-then u32 _ (word_bytes auth.flavor) (var_opaque_bytes auth.body ++ []) auth.flavor auth
        (word-Reads auth.flavor good.flavor)
        (Reads-then (var_opaque 400)
          (λ body r. ok (record { flavor = auth.flavor; body = body }, r))
          (var_opaque_bytes auth.body) [] auth.body auth
          (var_opaque-Reads 400 auth.body good.body (omega (arith, good.body))) (Reads-done auth)))

module _ {Text : Type 0} (encode : Text → Bytes) (decode : Bytes → Text) where
  -- The ids fit 32 bits, and the name is one that a reader takes and that UTF-8 keeps.
  pub record IsAuthSys (params : AuthSysParams Text) : Type 0 where
    pub stamp : params.stamp < 2 ^ 32
    pub kept : decode (encode params.machine_name) ≡ params.machine_name
    pub machine_name : length (encode params.machine_name) ≤ 255
    pub uid : params.uid < 2 ^ 32
    pub gid : params.gid < 2 ^ 32
    pub gids : All (λ gid. gid < 2 ^ 32) params.gids

  abbrev groups_bytes : List ℕ → Bytes
  groups_bytes gids = array_bytes write_u32 word_bytes write_u32-Appends gids

  abbrev auth_sys_bytes : AuthSysParams Text → Bytes
  auth_sys_bytes params =
      word_bytes params.stamp
      ++ (var_opaque_bytes (encode params.machine_name)
          ++ (word_bytes params.uid
              ++ (word_bytes params.gid ++ (groups_bytes (take 16 params.gids) ++ []))))

  write_auth_sys-Appends :
      (params : AuthSysParams Text) → Appends (write_auth_sys encode params) (auth_sys_bytes params)
  write_auth_sys-Appends params =
      let name = encode params.machine_name in
      let groups = take 16 params.gids in
      let uid_on =
        word_bytes params.uid ++ (word_bytes params.gid ++ (groups_bytes groups ++ [])) in
      word-then params.stamp
        (λ w.
          write_array write_u32 groups (
            write_u32 params.gid
              (write_u32 params.uid (write_string encode params.machine_name w))))
        (var_opaque_bytes name ++ uid_on)
        (Appends-then (write_string encode params.machine_name)
          (λ w. write_array write_u32 groups (write_u32 params.gid (write_u32 params.uid w)))
          (var_opaque_bytes name) uid_on (write_string-Appends encode params.machine_name)
          (word-then params.uid _ _ (
            word-then params.gid _ _ (
              Appends-then (write_array write_u32 groups) (λ w. w) (groups_bytes groups) []
                (write_array-Appends write_u32 word_bytes write_u32-Appends groups) Appends-done))))

  groups-Reads :
      (gids : List ℕ)
      → All (λ gid. gid < 2 ^ 32) gids
      → Reads (array u32 16) (groups_bytes (take 16 gids)) (take 16 gids)
  groups-Reads gids good =
      let few : length (take 16 gids) ≤ 16 = omega (arith, length-take 16 gids) in
      array-Reads u32 write_u32 word_bytes write_u32-Appends (λ gid. gid < 2 ^ 32) word-Reads
        (λ gid. omega (arith, length-to_be 4 (gid % 2 ^ 32))) 16 (take 16 gids) few
        (omega (arith, few)) (All-take (λ gid. gid < 2 ^ 32) 16 gids good)

  abbrev sixteen : AuthSysParams Text → AuthSysParams Text
  sixteen params = record params { gids = take 16 params.gids }

  read_auth_sys-Reads :
      (params : AuthSysParams Text)
      → IsAuthSys params
      → Reads (read_auth_sys decode) (auth_sys_bytes params) (sixteen params)
  read_auth_sys-Reads params good =
      Reads-then u32 _ _ _ params.stamp (sixteen params) (word-Reads params.stamp good.stamp) (
        Reads-then (string decode 255) _ _ _ params.machine_name (sixteen params)
          (string-Reads encode decode 255 params.machine_name good.kept good.machine_name
            (omega arith))
          (Reads-then u32 _ _ _ params.uid (sixteen params) (word-Reads params.uid good.uid) (
            Reads-then u32 _ _ _ params.gid (sixteen params) (word-Reads params.gid good.gid) (
              Reads-then (array u32 16) _ _ _ (take 16 params.gids) (sixteen params)
                (groups-Reads params.gids good.gids) (Reads-done (sixteen params))))))

  -- An AUTH_SYS body is read back as it was written, but for its groups, of which the first sixteen
  -- are sent, where its ids fit 32 bits and its machine name is at most 255 bytes that UTF-8 keeps.
  pub decode_auth_sys-encode_auth_sys :
      (params : AuthSysParams Text)
      → IsAuthSys params
      → decode_auth_sys decode (encode_auth_sys encode params)
        ≡ ok (record params { gids = take 16 params.gids })
  unfolding decode_auth_sys encode_auth_sys
  decode_auth_sys-encode_auth_sys params good =
      rw
        (
          written-Appends (write_auth_sys encode params) (auth_sys_bytes params) 64
              (write_auth_sys-Appends params),
          whole-Reads (read_auth_sys decode) (auth_sys_bytes params) (sixteen params)
              (read_auth_sys-Reads params good),
        )
        refl

  -- The server reads from an AUTH_SYS credential that authSys builds the user and the group it was
  -- built for, or those of the process where none was given, and no further groups, if the ids fit 32
  -- bits and the machine name is at most 255 bytes that UTF-8 keeps.
  pub credentials_of-auth_sys :
      (process_uid process_gid uid gid : Option ℕ) (machine_name : Text)
      → own_id process_uid uid < 2 ^ 32
      → own_id process_gid gid < 2 ^ 32
      → decode (encode machine_name) ≡ machine_name
      → length (encode machine_name) ≤ 255
      → credentials_of decode (auth_sys encode process_uid process_gid uid gid machine_name)
        ≡ record {
          flavor = auth_sys_flavor;
          uid = some (own_id process_uid uid);
          gid = some (own_id process_gid gid);
          gids = [];
        }
  unfolding credentials_of auth_sys
  credentials_of-auth_sys process_uid process_gid uid gid machine_name hu hg kept short =
      rw
        (decode_auth_sys-encode_auth_sys
          (record {
            stamp = 0;
            machine_name = machine_name;
            uid = own_id process_uid uid;
            gid = own_id process_gid gid;
            gids = [];
          })
          (record {
            stamp = omega arith;
            kept = kept;
            machine_name = short;
            uid = hu;
            gid = hg;
            gids = tt;
          }))
        refl
