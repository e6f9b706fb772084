-- ===== src/Rpc/Frames.antt =====
-- src/nfs/rpc.ts: the sending half of record marking.
use mountx.Common.{
  ℕ, zero, suc, ◌+◌, ◌%◌, ◌^◌, Bool, true, false, ◌++◌, ltb, leb, if◌then◌else◌, length, take, drop,
}
use mountx.Common.Result.{Result, ok, err}
use mountx.Xdr.{Bytes, XdrError, no_fragment_size, to_be}

-- `(last ? RM_LAST_FRAGMENT : 0) | length`, as `setUint32` writes it.
unfoldable pub fragment_word : Bool → ℕ → ℕ
fragment_word true size = 2 ^ 31 + size % 2 ^ 31
fragment_word false size = size % 2 ^ 32

pub record_mark : ℕ → Bytes
record_mark size = to_be 4 (fragment_word true size)

unfoldable pub frame_record : Bytes → Bytes
frame_record message = to_be 4 (fragment_word true (length message)) ++ message

abbrev pub fragment : Bool → Bytes → Bytes
fragment last chunk = to_be 4 (fragment_word last (length chunk)) ++ chunk

-- The fragments of the rest of the message. Each takes a byte at least, so that its length is fuel.
unfoldable pub fragments_from : ℕ → ℕ → Bytes → Bytes
fragments_from zero size rest = fragment true (take size rest)
fragments_from (suc fuel) size rest =
    let more = fragments_from fuel size (drop size rest) in
    if leb (length rest) size
    then fragment true (take size rest)
    else fragment false (take size rest) ++ more

unfoldable pub frame_fragments : Bytes → ℕ → Result XdrError Bytes
frame_fragments message size =
    if ltb size 1 then err no_fragment_size else ok (fragments_from (length message) size message)
