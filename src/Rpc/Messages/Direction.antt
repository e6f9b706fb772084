-- ===== src/Rpc/Messages/Direction.antt =====
-- A message is a call or a reply, and never both.
use mountx.Common.{ℕ, ◌≡◌, refl, ◌==◌, nat_eq, arith, Bool-cases, inl, inr}
use mountx.Common.Result.{ok, err, ◌>>=◌, bind_returned}
use mountx.Xdr.{Bytes, XdrError, not_a_call, not_a_reply, XdrReader, Read, new_reader, u32}
use mountx.Rpc.Messages.{RpcCall, RpcReply, call_typed, decode_call, reply_typed, decode_reply}

-- Two readers that start with the same two words and then differ.
module _ {A B : Type 0} (f : ℕ → ℕ → Read A) (g : ℕ → ℕ → Read B) (x : XdrError) where
  abbrev two_words : {C : Type 0} → (ℕ → ℕ → Read C) → Read C
  two_words next r = do (xid, r) ← u32 r; (type, r) ← u32 r; next xid type r

  two_words-refused :
      ((xid type : ℕ) (r : XdrReader) (p : A × XdrReader)
        → f xid type r ≡ ok p
        → g xid type r ≡ err x)
      → (r : XdrReader) (p : A × XdrReader) → two_words f r ≡ ok p
      → two_words g r ≡ err x
  two_words-refused refused r p e =
      let ((xid, r'), first, later) = bind_returned (u32 r) _ p e in
      let ((type, r''), second, typed) = bind_returned (u32 r') _ p later in
      rw (first, second) (refused xid type r'' p typed)

reply_typed-refused :
    (xid type : ℕ) (r : XdrReader) (p : RpcReply × XdrReader)
    → reply_typed xid type r ≡ ok p
    → call_typed xid type r ≡ err (not_a_call 1 4)
reply_typed-refused xid type r p e = elim (Bool-cases (type == 1)) [
  | inl same ↦ let one : type ≡ 1 = ground arith in rw one refl
  | inr other ↦
      let thrown : reply_typed xid type r ≡ err (not_a_reply type 4) = rw other refl in absurd cc
]

call_typed-refused :
    (xid type : ℕ) (r : XdrReader) (p : RpcCall × XdrReader)
    → call_typed xid type r ≡ ok p
    → reply_typed xid type r ≡ err (not_a_reply 0 4)
call_typed-refused xid type r p e = elim (Bool-cases (type == 0)) [
  | inl same ↦ let nil : type ≡ 0 = ground arith in rw nil refl
  | inr other ↦
      let thrown : call_typed xid type r ≡ err (not_a_call type 4) = rw other refl in absurd cc
]

-- A message that decodeReply accepts is refused by decodeCall as a reply, so that a server never
-- answers an answer.
pub decode_call-decode_reply :
    (bytes : Bytes) (reply : RpcReply × XdrReader)
    → decode_reply bytes ≡ ok reply
    → decode_call bytes ≡ err (not_a_call 1 4)
unfolding decode_call decode_reply
decode_call-decode_reply bytes reply e =
    two_words-refused reply_typed call_typed (not_a_call 1 4) reply_typed-refused
      (new_reader bytes 0) reply e

decode_reply-decode_call :
    (bytes : Bytes) (call : RpcCall × XdrReader)
    → decode_call bytes ≡ ok call
    → decode_reply bytes ≡ err (not_a_reply 0 4)
unfolding decode_call decode_reply
decode_reply-decode_call bytes call e =
    two_words-refused call_typed reply_typed (not_a_reply 0 4) call_typed-refused
      (new_reader bytes 0) call e
