-- ===== src/Rpc/Messages/Header.antt =====
-- The header of an accepted reply, set word by word or written.
use mountx.Common.{
  ℕ, ◌*◌, ◌%◌, ◌^◌, ◌≡◌, refl, sym, ap, ◌∙◌, List, [], ◌∷◌, ◌++◌, length, replicate,
  length-replicate, replicate-plus, append-nil, Option, none, some, All,
}
use mountx.Xdr.{Bytes, to_be, xdr_pad}
use mountx.Xdr.Numbers.{length-to_be}
use mountx.Xdr.Writer.{new_writer, written, set_at}
use mountx.Xdr.Writer.Refinement.{Appends, Appends-then}
use mountx.Xdr.Writer.Words.{words, IsWord, set_at-words, words-append, length-words}
use mountx.Xdr.Chains.{Appends-done, word_bytes, word-then, written-Appends}
use mountx.Rpc.Auth.{auth_null}
use mountx.Rpc.Auth.Laws.{auth-then}
use mountx.Rpc.Messages.Calls.{write_args-Appends}
use mountx.Rpc.Messages.{
  or_empty, write_args, write_accepted_reply_header, encode_accepted_reply, set_uint32,
  accepted_reply_header_size,
}

abbrev zero_word : Bytes
zero_word = replicate 4 0

abbrev pub header_words : ℕ → List Bytes
header_words xid =
    word_bytes xid ∷ word_bytes 1 ∷ word_bytes 0 ∷ word_bytes 0 ∷ zero_word ∷ word_bytes 0 ∷ []

set_uint32-words :
    (before : List Bytes) (value : ℕ) (post : Bytes)
    → All IsWord before
    → set_uint32 (4 * length before) value (words before (zero_word ++ post))
      ≡ words before (word_bytes value ++ post)
set_uint32-words before value post h =
    set_at-words before (word_bytes value) zero_word post h (sym (length-to_be 4 (value % 2 ^ 32)))

pub header_words-IsWord : (xid : ℕ) → All IsWord (header_words xid)
header_words-IsWord xid =
    let nil = length-to_be 4 0 in
    (length-to_be 4 (xid % 2 ^ 32), (length-to_be 4 1, (nil, (nil, (refl, (nil, tt))))))

header_made :
    (xid : ℕ) (post : Bytes)
    → set_uint32 20 0 (
        set_uint32 12 0 (
          set_uint32 8 0 (
            set_uint32 4 1 (
              set_uint32 0 xid (
                words
                  (zero_word ∷ zero_word ∷ zero_word ∷ zero_word ∷ zero_word ∷ zero_word ∷ [])
                  post)))))
      ≡ words (header_words xid) post
header_made xid post =
    let z = zero_word in
    let x = word_bytes xid in
    let isx : length x ≡ 4 = length-to_be 4 (xid % 2 ^ 32) in
    let one : length (word_bytes 1) ≡ 4 = length-to_be 4 1 in
    let nil : length (word_bytes 0) ≡ 4 = length-to_be 4 0 in
    let o = word_bytes 1 in
    let n = word_bytes 0 in
    ap (λ b. set_uint32 20 0 (set_uint32 12 0 (set_uint32 8 0 (set_uint32 4 1 b))))
      (set_uint32-words [] xid (words (z ∷ z ∷ z ∷ z ∷ z ∷ []) post) tt)
    ∙ ap (λ b. set_uint32 20 0 (set_uint32 12 0 (set_uint32 8 0 b)))
        (set_uint32-words (x ∷ []) 1 (words (z ∷ z ∷ z ∷ z ∷ []) post) (isx, tt))
    ∙ ap (λ b. set_uint32 20 0 (set_uint32 12 0 b))
        (set_uint32-words (x ∷ o ∷ []) 0 (words (z ∷ z ∷ z ∷ []) post) (isx, (one, tt)))
    ∙ ap (λ b. set_uint32 20 0 b)
        (set_uint32-words (x ∷ o ∷ n ∷ []) 0 (words (z ∷ z ∷ []) post) (isx, (one, (nil, tt))))
    ∙ set_uint32-words (x ∷ o ∷ n ∷ n ∷ z ∷ []) 0 post (isx, (one, (nil, (nil, (refl, tt)))))

set_at-tail :
    (xid : ℕ) (bytes : Bytes)
    → set_at 24 bytes (words (header_words xid) (replicate (length bytes) 0))
      ≡ words (header_words xid) bytes
set_at-tail xid bytes =
    ap (λ b. set_at 24 bytes (words (header_words xid) b)) (sym (append-nil _))
    ∙ set_at-words (header_words xid) bytes (replicate (length bytes) 0) []
        (header_words-IsWord xid) (length-replicate (length bytes) 0)
    ∙ ap (words (header_words xid)) (append-nil bytes)

pub encode_accepted_reply-words :
    (xid : ℕ) (results : Option Bytes)
    → encode_accepted_reply xid results ≡ words (header_words xid) (or_empty results)
unfolding encode_accepted_reply
encode_accepted_reply-words xid none = header_made xid []
encode_accepted_reply-words xid (some bytes) =
    ap (set_at 24 bytes) (
      ap
        (λ b.
          set_uint32 20 0 (set_uint32 12 0 (set_uint32 8 0 (set_uint32 4 1 (set_uint32 0 xid b)))))
        (replicate-plus 24 (length bytes) 0)
      ∙ header_made xid (replicate (length bytes) 0))
    ∙ set_at-tail xid bytes

write_accepted_reply_header-Appends :
    (xid : ℕ) → Appends (write_accepted_reply_header xid) (words (header_words xid) [])
unfolding write_accepted_reply_header xdr_pad to_be
write_accepted_reply_header-Appends xid = word-then xid _ _ (
    word-then 1 _ _
      (word-then 0 _ _ (auth-then auth_null _ _ (word-then 0 (λ w. w) [] Appends-done))))

-- encodeAcceptedReply gives what the header writer and then the results give in a writer of any
-- capacity, and the header takes the 24 bytes that ACCEPTED_REPLY_HEADER_SIZE says.
pub encode_accepted_reply-write_accepted_reply_header :
    (xid capacity : ℕ) (results : Option Bytes)
    → (encode_accepted_reply xid results
        ≡ written (write_args results (write_accepted_reply_header xid (new_writer capacity))))
      × (length (written (write_accepted_reply_header xid (new_writer capacity)))
          ≡ accepted_reply_header_size)
encode_accepted_reply-write_accepted_reply_header xid capacity results =
    let head = words (header_words xid) [] in
    let made =
      Appends-then (write_accepted_reply_header xid) (write_args results) head (or_empty results)
        (write_accepted_reply_header-Appends xid) (write_args-Appends results) in
    (
      encode_accepted_reply-words xid results
          ∙ sym (words-append (header_words xid) [] (or_empty results))
          ∙ sym (
              written-Appends (λ w. write_args results (write_accepted_reply_header xid w))
                (head ++ or_empty results) capacity made),
      ap length (
            written-Appends (write_accepted_reply_header xid) head capacity
              (write_accepted_reply_header-Appends xid))
          ∙ length-words (header_words xid) [] (header_words-IsWord xid),
    )
