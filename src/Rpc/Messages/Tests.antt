-- ===== src/Rpc/Messages/Tests.antt =====
-- Calls, replies and credentials at concrete values. Text is its own bytes here.
use mountx.Common.{◌≡◌, refl, [], ◌∷◌, arith, none, some, length, drop, nat_eq}
use mountx.Common.Result.{ok, err}
use mountx.Xdr.{Bytes, XdrReader, not_a_call}
use mountx.Xdr.Writer.{new_writer, written}
use mountx.Rpc.Auth.{AuthSysParams, auth_sys, encode_auth_sys, decode_auth_sys, credentials_of}
use mountx.Rpc.Auth.Laws.{decode_auth_sys-encode_auth_sys, credentials_of-auth_sys}
use mountx.Rpc.Messages.{
  RpcCallOptions, decode_call, encode_call, encode_accepted_reply, decode_reply, write_args,
  write_accepted_reply_header,
}
use mountx.Rpc.Messages.Calls.{sent, decode_call-encode_call}
use mountx.Rpc.Messages.Replies.{failure, encoded, shown, decode_reply-encoded}
use mountx.Rpc.Messages.Header.{encode_accepted_reply-write_accepted_reply_header}
use mountx.Rpc.Messages.Direction.{decode_call-decode_reply}

abbrev same : Bytes → Bytes
same text = text

abbrev params : AuthSysParams Bytes
params = record {
  stamp = 7;
  machine_name = 109 ∷ 120 ∷ [];
  uid = 1000;
  gid = 100;
  gids = 4 ∷ 24 ∷ [];
}

abbrev options : RpcCallOptions
options = record {
  xid = 9;
  program = 100003;
  version = 3;
  procedure = 1;
  cred = some (record { flavor = 1; body = 0 ∷ 0 ∷ 0 ∷ 7 ∷ [] });
  verf = none;
  args = some (1 ∷ 2 ∷ []);
}

decode_auth_sys-encode_auth_sys_example :
    decode_auth_sys same (encode_auth_sys same params) ≡ ok params
decode_auth_sys-encode_auth_sys_example = decode_auth_sys-encode_auth_sys same same params (record {
  stamp = omega arith;
  kept = refl;
  machine_name = omega arith;
  uid = omega arith;
  gid = omega arith;
  gids = (omega arith, (omega arith, tt));
})

credentials_of-auth_sys_example :
    credentials_of same (auth_sys same (some 1000) none none (some 5) (109 ∷ []))
    ≡ record { flavor = 1; uid = some 1000; gid = some 5; gids = [] }
credentials_of-auth_sys_example =
    credentials_of-auth_sys same same (some 1000) none none (some 5) (109 ∷ []) (omega arith)
      (omega arith) refl (omega arith)

decode_call-encode_call_example :
    (reader : XdrReader) × (decode_call (encode_call options) ≡ ok (sent options, reader))
    × (drop reader.offset reader.bytes ≡ 1 ∷ 2 ∷ [])
decode_call-encode_call_example = decode_call-encode_call options (record {
  xid = omega arith;
  program = omega arith;
  version = omega arith;
  procedure = omega arith;
  cred = record { flavor = omega arith; body = omega arith };
  verf = record { flavor = omega arith; body = omega arith };
})

decode_reply-encoded_example :
    (reader : XdrReader) × (decode_reply (encoded 9 (failure 2 (some (3, 4))))
      ≡ ok (shown 9 (failure 2 (some (3, 4))), reader))
    × (drop reader.offset reader.bytes ≡ [])
decode_reply-encoded_example =
    decode_reply-encoded 9 (failure 2 (some (3, 4))) (omega arith)
      (omega arith, omega arith, omega arith)

range_reply :
    (reader : XdrReader) × (decode_reply (encoded 9 (failure 2 (some (3, 4))))
      ≡ ok (shown 9 (failure 2 (some (3, 4))), reader))
    × (drop reader.offset reader.bytes ≡ [])
range_reply =
    decode_reply-encoded 9 (failure 2 (some (3, 4))) (omega arith)
      (omega arith, omega arith, omega arith)

decode_call-decode_reply_example :
    decode_call (encoded 9 (failure 2 (some (3, 4)))) ≡ err (not_a_call 1 4)
decode_call-decode_reply_example =
    decode_call-decode_reply (encoded 9 (failure 2 (some (3, 4))))
      (shown 9 (failure 2 (some (3, 4))), range_reply.0) range_reply.1

encode_accepted_reply-write_accepted_reply_header_example :
    (encode_accepted_reply 9 (some (1 ∷ 2 ∷ []))
      ≡ written (write_args (some (1 ∷ 2 ∷ [])) (write_accepted_reply_header 9 (new_writer 16))))
    × (length (written (write_accepted_reply_header 9 (new_writer 16))) ≡ 24)
encode_accepted_reply-write_accepted_reply_header_example =
    encode_accepted_reply-write_accepted_reply_header 9 16 (some (1 ∷ 2 ∷ []))
