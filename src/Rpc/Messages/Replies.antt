-- ===== src/Rpc/Messages/Replies.antt =====
-- The replies that are encoded are read back.
use mountx.Common.{
  ==_iff, Bool-cases, inl, inr, false, ℕ, ◌^◌, ◌<◌, ◌≡◌, ◌≢◌, sym, ap, ◌∙◌, [], ◌++◌, ◌==◌, nat_eq,
  length, drop, arith, append-nil, Option, none, some, if◌then◌else◌,
}
use mountx.Common.Result.{ok}
use mountx.Xdr.{Bytes, XdrReader, new_reader, u32, to_be, xdr_pad}
use mountx.Xdr.Writer.{XdrWriter, new_writer, written, write_u32}
use mountx.Xdr.Writer.Refinement.{Appends, Appends-then}
use mountx.Xdr.Writer.Words.{words, words-append}
use mountx.Xdr.Reads.{Reads}
use mountx.Xdr.Chains.{
  Reads-done, Reads-then, Appends-done, word_bytes, word-Reads, word-then, written-Appends,
  front-Reads,
}
use mountx.Rpc.Auth.{auth_null, read_auth}
use mountx.Rpc.Auth.Laws.{auth_bytes, auth-then, read_auth-Reads}
use mountx.Rpc.Messages.{
  RpcReply, or_empty, bare_reply, read_reply, reply_typed, reply_body, read_accepted_body,
  read_denied_body, read_range, decode_reply, encode_accepted_reply, write_accepted,
  encode_accept_error, encode_auth_error, encode_rpc_mismatch, or_version, write_reply,
  rpc_auth_error, rpc_mismatch,
}
use mountx.Rpc.Messages.Header.{header_words, encode_accepted_reply-words}

-- What the encoders build: results, an error of an accepted call, and the two denials.
pub data Answer : Type 0 where
  success : Option Bytes → Answer
  failure : ℕ → Option (ℕ × ℕ) → Answer
  denied : ℕ → Answer
  no_rpc_version : Option ℕ → Option ℕ → Answer

abbrev pub encoded : ℕ → Answer → Bytes
encoded xid (success results) = encode_accepted_reply xid results
encoded xid (failure status range) = encode_accept_error xid status range
encoded xid (denied status) = encode_auth_error xid status
encoded xid (no_rpc_version low high) = encode_rpc_mismatch xid low high

abbrev accepted_reply : ℕ → ℕ → RpcReply
accepted_reply xid status = record (bare_reply xid 0) {
  verf = some auth_null;
  accept_stat = some status;
}

abbrev denied_reply : ℕ → ℕ → RpcReply
denied_reply xid status = record (bare_reply xid 1) { reject_stat = some status }

abbrev pub shown : ℕ → Answer → RpcReply
shown xid (success results) = accepted_reply xid 0
shown xid (failure status none) = accepted_reply xid status
shown xid (failure status (some (low, high))) =
    if status == 2
    then record (accepted_reply xid 2) { low = some low; high = some high }
    else accepted_reply xid status
shown xid (denied status) = record (denied_reply xid 1) { auth_stat = some status }
shown xid (no_rpc_version low high) = record (denied_reply xid 0) {
  low = some (or_version low);
  high = some (or_version high);
}

abbrev pub results_of : Answer → Bytes
results_of (success results) = or_empty results
results_of (failure status (some (low, high))) =
    if status == 2 then [] else word_bytes low ++ (word_bytes high ++ [])
results_of _ = []

-- The numbers fit 32 bits, and the mismatch of versions comes with its range.
abbrev pub IsAnswer : Answer → Type 0
IsAnswer (success results) = Unit
IsAnswer (failure status none) = (status < 2 ^ 32) × (status ≢ 2)
IsAnswer (failure status (some (low, high))) = (status < 2 ^ 32) × (low < 2 ^ 32) × (high < 2 ^ 32)
IsAnswer (denied status) = status < 2 ^ 32
IsAnswer (no_rpc_version low high) = (or_version low < 2 ^ 32) × (or_version high < 2 ^ 32)

module _ (xid : ℕ) (h : xid < 2 ^ 32) where
  abbrev front_bytes : ℕ → Bytes → Bytes
  front_bytes status later = word_bytes xid ++ (word_bytes 1 ++ (word_bytes status ++ later))

  front-reply-Reads :
      (status : ℕ) (later : Bytes) (reply : RpcReply)
      → status < 2 ^ 32
      → Reads (reply_body xid status) later reply
      → Reads read_reply (front_bytes status later) reply
  front-reply-Reads status later reply k body = Reads-then u32 _ _ _ xid reply (word-Reads xid h) (
      Reads-then u32 (reply_typed xid) _ _ 1 reply (word-Reads 1 (omega arith))
        (Reads-then u32 (reply_body xid) _ _ status reply (word-Reads status k) body))

  accepted-Reads :
      (status : ℕ) (later : Bytes) (reply : RpcReply)
      → status < 2 ^ 32
      → Reads
          (read_accepted_body (record (bare_reply xid 0) { verf = some auth_null }) status)
          later
          reply
      → Reads read_reply
          (front_bytes 0 (auth_bytes auth_null ++ (word_bytes status ++ later)))
          reply
  accepted-Reads status later reply k body = front-reply-Reads 0 _ reply (omega arith) (
      Reads-then read_auth _ _ _ auth_null reply
        (read_auth-Reads auth_null (record { flavor = omega arith; body = omega arith }))
        (Reads-then u32 (read_accepted_body (record (bare_reply xid 0) { verf = some auth_null })) _
          _ status reply (word-Reads status k) body))

  denied-Reads :
      (status : ℕ) (later : Bytes) (reply : RpcReply)
      → status < 2 ^ 32
      → Reads (read_denied_body (bare_reply xid 1) status) later reply
      → Reads read_reply (front_bytes 1 (word_bytes status ++ later)) reply
  denied-Reads status later reply k body = front-reply-Reads 1 _ reply (omega arith) (
      Reads-then u32 (read_denied_body (bare_reply xid 1)) _ _ status reply (word-Reads status k)
        body)

  -- A reply whose bytes are known is decoded.
  abbrev Decoded : Bytes → RpcReply → Bytes → Type 0
  Decoded bytes reply results =
      (reader : XdrReader) × (decode_reply bytes ≡ ok (reply, reader))
      × (drop reader.offset reader.bytes ≡ results)

  decoded :
      (bytes head results : Bytes) (reply : RpcReply)
      → bytes ≡ head ++ results
      → Reads read_reply head reply
      → Decoded bytes reply results
  unfolding decode_reply new_reader
  decoded bytes head results reply same reads =
      let front = front-Reads read_reply head results reply reads in
      (new_reader (head ++ results) (length head), ap decode_reply same ∙ front.0, front.1)

  written-Decoded :
      (write : XdrWriter → XdrWriter) (head : Bytes) (capacity : ℕ) (reply : RpcReply)
      → Appends write head
      → Reads read_reply head reply
      → Decoded (written (write (new_writer capacity))) reply []
  written-Decoded write head capacity reply appends reads =
      decoded _ head [] reply (written-Appends write head capacity appends ∙ sym (append-nil head))
        reads

  range-Reads :
      (reply : RpcReply) (low high : ℕ)
      → low < 2 ^ 32
      → high < 2 ^ 32
      → Reads
          (read_range reply)
          (word_bytes low ++ (word_bytes high ++ []))
          (record reply { low = some low; high = some high })
  range-Reads reply low high l k =
      let ranged = record reply { low = some low; high = some high } in
      Reads-then u32 _ _ _ low ranged (word-Reads low l)
        (Reads-then u32 _ _ _ high ranged (word-Reads high k) (Reads-done ranged))

  success-Decoded :
      (results : Option Bytes)
      → Decoded (encode_accepted_reply xid results) (accepted_reply xid 0) (or_empty results)
  unfolding to_be xdr_pad
  success-Decoded results =
      decoded _ (words (header_words xid) []) (or_empty results) (accepted_reply xid 0)
        (encode_accepted_reply-words xid results
          ∙ sym (words-append (header_words xid) [] (or_empty results)))
        (accepted-Reads 0 [] (accepted_reply xid 0) (omega arith)
          (Reads-done (accepted_reply xid 0)))

  accept_error-Appends :
      (status : ℕ) (later : XdrWriter → XdrWriter) (ys : Bytes)
      → Appends later ys
      → Appends
          (λ w. later (write_accepted xid status w))
          (front_bytes 0 (auth_bytes auth_null ++ (word_bytes status ++ ys)))
  accept_error-Appends status later ys appends = word-then xid _ _ (
      word-then 1 _ _
        (word-then 0 _ _ (auth-then auth_null _ _ (word-then status later ys appends))))

  failure-Decoded :
      (status : ℕ)
      → status < 2 ^ 32
      → status ≢ 2
      → Decoded (encode_accept_error xid status none) (accepted_reply xid status) []
  unfolding encode_accept_error
  failure-Decoded status k other =
      let plain : (status == 2) ≡ false = ground (arith, other) in
      written-Decoded (write_accepted xid status) _ 48 (accepted_reply xid status)
        (accept_error-Appends status (λ w. w) [] Appends-done)
        (accepted-Reads status [] (accepted_reply xid status) k
          (λ x post s. rw plain (Reads-done (accepted_reply xid status) x post s)))

  abbrev write_range : ℕ → ℕ → XdrWriter → XdrWriter
  write_range low high w = write_u32 high (write_u32 low w)

  range-Appends :
      (low high : ℕ) → Appends (write_range low high) (word_bytes low ++ (word_bytes high ++ []))
  range-Appends low high = word-then low _ _ (word-then high (λ w. w) [] Appends-done)

  mismatch-Decoded :
      (low high : ℕ)
      → low < 2 ^ 32
      → high < 2 ^ 32
      → Decoded
          (encode_accept_error xid 2 (some (low, high)))
          (shown xid (failure 2 (some (low, high))))
          []
  unfolding encode_accept_error
  mismatch-Decoded low high l k =
      let reply = shown xid (failure 2 (some (low, high))) in
      written-Decoded (λ w. write_range low high (write_accepted xid 2 w)) _ 48 reply
        (accept_error-Appends 2 (write_range low high) _ (range-Appends low high))
        (accepted-Reads 2 _ reply (omega arith) (range-Reads (accepted_reply xid 2) low high l k))

  -- A range behind another status is not read.
  unread-Decoded :
      (status low high : ℕ)
      → status < 2 ^ 32
      → (status == 2) ≡ false
      → Decoded
          (encode_accept_error xid status (some (low, high)))
          (accepted_reply xid status)
          (word_bytes low ++ (word_bytes high ++ []))
  unfolding encode_accept_error
  unread-Decoded status low high k plain =
      let range = word_bytes low ++ (word_bytes high ++ []) in
      let head = front_bytes 0 (auth_bytes auth_null ++ (word_bytes status ++ [])) in
      decoded _ head range (accepted_reply xid status)
        (written-Appends (λ w. write_range low high (write_accepted xid status w)) (head ++ range)
          48
          (Appends-then (write_accepted xid status) (write_range low high) head range
            (accept_error-Appends status (λ w. w) [] Appends-done) (range-Appends low high)))
        (accepted-Reads status [] (accepted_reply xid status) k
          (λ x post s. rw plain (Reads-done (accepted_reply xid status) x post s)))

  ranged-Decoded :
      (status low high : ℕ)
      → status < 2 ^ 32
      → low < 2 ^ 32
      → high < 2 ^ 32
      → Decoded
          (encode_accept_error xid status (some (low, high)))
          (shown xid (failure status (some (low, high))))
          (results_of (failure status (some (low, high))))
  ranged-Decoded status low high k l m = elim (Bool-cases (status == 2)) [
    | inl e ↦
        let same : status ≡ 2 = ground (arith, ==_iff status 2) in
        rw same (mismatch-Decoded low high l m)
    | inr e ↦ rw e (unread-Decoded status low high k e)
  ]

  denied-Decoded :
      (status : ℕ)
      → status < 2 ^ 32
      → Decoded (encode_auth_error xid status) (shown xid (denied status)) []
  unfolding encode_auth_error
  denied-Decoded status k =
      let reply = shown xid (denied status) in
      written-Decoded (λ w. write_u32 status (write_u32 rpc_auth_error (write_reply xid 1 w))) _ 32
        reply
        (word-then xid _ _ (
          word-then 1 _ _
            (word-then 1 _ _ (word-then 1 _ _ (word-then status (λ w. w) [] Appends-done)))))
        (denied-Reads 1 _ reply (omega arith)
          (Reads-then u32 _ _ _ status reply (word-Reads status k) (Reads-done reply)))

  no_rpc_version-Decoded :
      (low high : Option ℕ)
      → or_version low < 2 ^ 32
      → or_version high < 2 ^ 32
      → Decoded (encode_rpc_mismatch xid low high) (shown xid (no_rpc_version low high)) []
  unfolding encode_rpc_mismatch
  no_rpc_version-Decoded low high l k =
      let reply = shown xid (no_rpc_version low high) in
      written-Decoded
        (λ w.
          write_u32 (or_version high)
            (write_u32 (or_version low) (write_u32 rpc_mismatch (write_reply xid 1 w))))
        _ 32 reply
        (word-then xid _ _ (
          word-then 1 _ _ (
            word-then 1 _ _ (
              word-then 0 _ _ (
                word-then (or_version low) _ _
                  (word-then (or_version high) (λ w. w) [] Appends-done))))))
        (denied-Reads 0 _ reply (omega arith)
          (range-Reads (denied_reply xid 0) (or_version low) (or_version high) l k))

-- decodeReply reads each reply that the encoders build with numbers of 32 bits, except a PROG_MISMATCH
-- that was built without its range. It gives the status, the verifier where the call was accepted,
-- the range of a mismatch of versions, the authentication status where there is one, and nothing
-- else, and leaves the reader where the results start; a range behind any other accept status is
-- left there unread.
pub decode_reply-encoded :
    (xid : ℕ) (answer : Answer)
    → xid < 2 ^ 32
    → IsAnswer answer
    → (reader : XdrReader) × (decode_reply (encoded xid answer) ≡ ok (shown xid answer, reader))
      × (drop reader.offset reader.bytes ≡ results_of answer)
decode_reply-encoded xid (success results) h good = success-Decoded xid h results
decode_reply-encoded xid (failure status none) h (k, other) = failure-Decoded xid h status k other
decode_reply-encoded xid (failure status (some (low, high))) h (k, l, m) =
    ranged-Decoded xid h status low high k l m
decode_reply-encoded xid (denied status) h k = denied-Decoded xid h status k
decode_reply-encoded xid (no_rpc_version low high) h (l, k) =
    no_rpc_version-Decoded xid h low high l k
