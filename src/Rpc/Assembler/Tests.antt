-- ===== src/Rpc/Assembler/Tests.antt =====
-- Record marking at concrete values.
use mountx.Common.{◌≡◌, ◌≤◌, ◌+◌, ◌*◌, refl, List, [], ◌∷◌, ◌++◌, arith, none, some}
use mountx.Common.Result.{ok, err}
use mountx.Xdr.{Bytes, to_be, record_too_long, too_many_fragments}
use mountx.Rpc.Frames.{fragment_word, frame_record, fragments_from, frame_fragments}
use mountx.Rpc.Assembler.{
  new_assembler, pending, fragment_limit, header_bytes, header_from, header, advance, take_from,
  take_bytes, drop_from, drop_bytes, joined, join, count_fragment, keep_fragment, accept, round,
  rounds, loosen, push,
}
use mountx.Rpc.Assembler.Deliveries.{at_once, deliver, deliver-joined, records_of}
use mountx.Rpc.Assembler.Held.{pending-bound}
use mountx.Rpc.Records.{deliver-frame_fragments}

program : Unit {0}
unfolding to_be fragment_word frame_record fragments_from frame_fragments new_assembler pending
    fragment_limit header_bytes header_from header advance take_from take_bytes drop_from drop_bytes
    joined join count_fragment keep_fragment accept round rounds loosen push deliver
program = tt

abbrev message : Bytes
message = 1 ∷ 2 ∷ 3 ∷ 4 ∷ 5 ∷ []

-- The message in fragments of three bytes, cut inside a header and inside a fragment.
abbrev first_chunk : Bytes
first_chunk = 0 ∷ 0 ∷ []

abbrev later_chunks : List Bytes
later_chunks = (0 ∷ 3 ∷ 1 ∷ []) ∷ (2 ∷ 3 ∷ 128 ∷ 0 ∷ 0 ∷ 2 ∷ 4 ∷ []) ∷ (5 ∷ []) ∷ []

fragments_of_three : frame_fragments message 3 ≡ ok (joined (first_chunk ∷ later_chunks))
unfolding program
fragments_of_three = refl

from_four_chunks :
    records_of (at_once (deliver first_chunk later_chunks (new_assembler 16 (some 2))))
    ≡ ok (message ∷ [])
unfolding program
from_four_chunks = refl

two_records_at_once :
    records_of (push (frame_record message ++ frame_record [] ++ 0 ∷ []) (new_assembler 16 none))
    ≡ ok (message ∷ [] ∷ [])
unfolding program
two_records_at_once = refl

too_long :
    records_of (push (frame_record message) (new_assembler 4 none)) ≡ err (record_too_long 5 4)
unfolding program
too_long = refl

too_many :
    records_of (at_once (deliver first_chunk later_chunks (new_assembler 16 (some 1))))
    ≡ err (too_many_fragments 1 3)
unfolding program
too_many = refl

-- The record of the first delivery is kept, and one delivery of the same bytes gives none.
an_error_behind_a_record :
    ((deliver (frame_record []) (frame_record message ∷ []) (new_assembler 4 none)).0 ≡ [] ∷ [])
    × (records_of
          (at_once (deliver (frame_record []) (frame_record message ∷ []) (new_assembler 4 none)))
        ≡ err (record_too_long 5 4))
    × (records_of (push (frame_record [] ++ frame_record message) (new_assembler 4 none))
        ≡ err (record_too_long 5 4))
unfolding program
an_error_behind_a_record = (refl, refl, refl)

deliver-joined_example :
    records_of (at_once (deliver first_chunk later_chunks (new_assembler 16 (some 2))))
    ≡ records_of (push (joined (first_chunk ∷ later_chunks)) (new_assembler 16 (some 2)))
deliver-joined_example = deliver-joined 16 (some 2) first_chunk later_chunks

deliver-frame_fragments_example :
    records_of (at_once (deliver first_chunk later_chunks (new_assembler 16 (some 2))))
    ≡ ok (message ∷ [])
unfolding program
deliver-frame_fragments_example =
    deliver-frame_fragments 16 3 (some 2) message first_chunk later_chunks (omega arith)
      (omega arith) (omega arith) (omega arith) fragments_of_three

pending-bound_example : 9 ≤ 16 + 2 * 4 + 3
unfolding program
pending-bound_example =
    pending-bound 16 (some 2) first_chunk ((0 ∷ 3 ∷ 1 ∷ 2 ∷ 3 ∷ []) ∷ (128 ∷ 0 ∷ []) ∷ []) []
      (record {
        fragments = (1 ∷ 2 ∷ 3 ∷ []) ∷ [];
        assembled = 3;
        count = 1;
        chunks = (128 ∷ 0 ∷ []) ∷ [];
        head = 0;
        buffered = 2;
        limit = 16;
        max_fragments = 2;
      })
      refl
