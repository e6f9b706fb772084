-- ===== src/Rpc/Messages/Calls.antt =====
-- A call that is written is read back, up to its arguments.
use mountx.Common.{◌+◌, ◌^◌, ◌<◌, ◌≡◌, ap, ◌∙◌, [], ◌++◌, length, drop, arith, Option, none, some}
use mountx.Common.Result.{ok}
use mountx.Xdr.{Bytes, XdrReader, new_reader, u32}
use mountx.Xdr.Writer.Refinement.{Appends, Appends-then}
use mountx.Xdr.Writer.Spans.{write_raw-Appends}
use mountx.Xdr.Reads.{Reads}
use mountx.Xdr.Chains.{
  Reads-done, Reads-then, Appends-done, word_bytes, word-Reads, word-then, written-Appends,
  front-Reads,
}
use mountx.Rpc.Auth.{read_auth}
use mountx.Rpc.Auth.Laws.{auth_bytes, IsAuth, auth-then, read_auth-Reads}
use mountx.Rpc.Messages.{
  RpcCall, RpcCallOptions, rpc_version, rpc_call, or_null, or_empty, read_call, call_typed,
  decode_call, write_args, write_call, encode_call,
}

-- The numbers fit 32 bits, and a reader takes the credential and the verifier.
pub record IsCall (options : RpcCallOptions) : Type 0 where
  pub xid : options.xid < 2 ^ 32
  pub program : options.program < 2 ^ 32
  pub version : options.version < 2 ^ 32
  pub procedure : options.procedure < 2 ^ 32
  pub cred : IsAuth (or_null options.cred)
  pub verf : IsAuth (or_null options.verf)

abbrev pub sent : RpcCallOptions → RpcCall
sent options = record {
  xid = options.xid;
  rpc_version = rpc_version;
  program = options.program;
  version = options.version;
  procedure = options.procedure;
  cred = or_null options.cred;
  verf = or_null options.verf;
}

abbrev auths_bytes : RpcCallOptions → Bytes
auths_bytes o = auth_bytes (or_null o.cred) ++ (auth_bytes (or_null o.verf) ++ [])

abbrev numbers_bytes : RpcCallOptions → Bytes → Bytes
numbers_bytes o later =
    word_bytes o.program ++ (word_bytes o.version ++ (word_bytes o.procedure ++ later))

abbrev call_bytes : RpcCallOptions → Bytes
call_bytes o =
    word_bytes o.xid
    ++ (word_bytes rpc_call ++ (word_bytes rpc_version ++ numbers_bytes o (auths_bytes o)))

read_call-Reads : (o : RpcCallOptions) → IsCall o → Reads read_call (call_bytes o) (sent o)
read_call-Reads o good =
    let call = sent o in
    Reads-then u32 _ _ _ o.xid call (word-Reads o.xid good.xid) (
      Reads-then u32 (call_typed o.xid) _ _ rpc_call call (word-Reads rpc_call (omega arith)) (
        Reads-then u32 _ _ _ rpc_version call (word-Reads rpc_version (omega arith)) (
          Reads-then u32 _ _ _ o.program call (word-Reads o.program good.program) (
            Reads-then u32 _ _ _ o.version call (word-Reads o.version good.version) (
              Reads-then u32 _ _ _ o.procedure call (word-Reads o.procedure good.procedure) (
                Reads-then read_auth _ _ _ (or_null o.cred) call
                  (read_auth-Reads (or_null o.cred) good.cred)
                  (Reads-then read_auth _ _ _ (or_null o.verf) call
                    (read_auth-Reads (or_null o.verf) good.verf) (Reads-done call))))))))

pub write_args-Appends : (args : Option Bytes) → Appends (write_args args) (or_empty args)
write_args-Appends none = Appends-done
write_args-Appends (some args) = write_raw-Appends args

write_call-Appends : (o : RpcCallOptions) → Appends (write_call o) (call_bytes o ++ or_empty o.args)
write_call-Appends o =
    Appends-then (λ w. write_call (record o { args = none }) w) (write_args o.args) (call_bytes o)
      (or_empty o.args)
      (word-then o.xid _ _ (
        word-then rpc_call _ _ (
          word-then rpc_version _ _ (
            word-then o.program _ _ (
              word-then o.version _ _ (
                word-then o.procedure _ _ (
                  auth-then (or_null o.cred) _ _
                    (auth-then (or_null o.verf) (λ w. w) [] Appends-done))))))))
      (write_args-Appends o.args)

-- A call that encodeCall builds is decoded to what it was built from, with the null credential where
-- none was given, and the reader is left where the arguments start, if the numbers fit 32 bits and
-- neither credential is longer than 400 bytes.
pub decode_call-encode_call :
    (options : RpcCallOptions)
    → IsCall options
    → (reader : XdrReader) × (decode_call (encode_call options) ≡ ok (sent options, reader))
      × (drop reader.offset reader.bytes ≡ or_empty options.args)
unfolding decode_call encode_call new_reader
decode_call-encode_call options good =
    let args = or_empty options.args in
    let head = call_bytes options in
    let front = front-Reads read_call head args (sent options) (read_call-Reads options good) in
    let bytes =
      written-Appends (write_call options) (head ++ args) (128 + length args)
        (write_call-Appends options) in
    (new_reader (head ++ args) (length head), ap decode_call bytes ∙ front.0, front.1)
