-- ===== src/Lib.antt =====
-- mountx serves a file-system driver, an object with the methods of node:fs/promises, to kernels and
-- network clients, over FUSE, 9P, NFS, S3 and WebDAV. This library models the parts of the program
-- that those transports stand on: names, errors, the tables that a rename rewrites, locks, the wire
-- codecs of NFS and 9P, and the messages of RPC with their record marking.
--
-- Errors models src/errors.ts: `fs_error` is fsError, `errno_of` errnoOf, `is_fs_error` isFsError. A
-- thrown value is reduced to what those functions read of it, its `code` and its `errno`, which is
-- any number of JavaScript; `in` finds inherited names too. Stack traces and causes are left out, and
-- so is rangeError, whose errors reach no wire.
-- FilePath models src/path.ts function by function. A string is the list of its UTF-16 code units;
-- the index loop of isNormalizedPath runs over the rest of the path, and keeps the text from `start`
-- on in place of the index. `split`, `join`, `last_index` and `starts_with` are the methods of
-- JavaScript strings and arrays that the file calls.
-- Subtree models src/subtree.ts. The walk takes the table's operations as a record
-- (`SubtreeRemapOps`), and its laws are an interface (`Subtree.Laws.RemapLaws`) that a table fills.
-- A walk over a Map that deletes the current key is a walk over the entries that it began with.
-- P9Locks models src/9p/locks.ts: the range algebra in P9Locks, the table and the calls of a client's
-- handle in P9Locks.Table. `sort` is a stable sort, as that of JavaScript is. `lastOf` of coalesce is
-- found as the newest merged range of its group. An entry that is taken out of the map is not
-- reached again, so what its `paths` set holds then is left out. The error of a call that throws is
-- its code.
-- Inodes models src/fuse/inodes.ts: the maps and `bind` in Inodes, lookups, forgets, removals, renames
-- and `clear` in Inodes.Table. An Inode object that the maps share is filed in `by_nodeid`, and the
-- two other maps hold its nodeid; a write to an object that is not filed is not seen. The lookup
-- count of an object that is dropped is not kept, so it is a natural number.
-- DavLocks models src/webdav/locks.ts. Times are whole milliseconds; the token that the host's random
-- source mints is an argument of `create`, and the owner element is of any type.
-- Xdr models src/nfs/xdr.ts: the reader in Xdr, the writer with its growing buffer in Xdr.Writer. A
-- reader or writer that is called by reference is passed along; UTF-8 is a parameter.
-- Rpc models src/nfs/rpc.ts: Rpc.Auth its credentials, Rpc.Messages the calls and the replies,
-- which decode to their fields and the reader that is left, Rpc.Frames the sending half of record
-- marking, Rpc.Assembler the class RecordAssembler, with its queue of chunks. A state after a throw
-- is not kept, since the server closes the connection; the records of earlier deliveries are.
-- `rounds` has the buffered bytes as its fuel, of which a round consumes four at least; `take_from`
-- and `drop_from` the number of chunks, of which each round but the last uses one up;
-- `fragments_from` the length of the message.
-- P9Wire models src/9p/wire.ts. Its reader and its writer keep the same bytes and positions as those
-- of src/nfs/xdr.ts and grow by the same code, so they are the records of Xdr, with `need` and `put`.
-- Ownership models src/ownership.ts, over a driver that is a parameter: calls that pass a state along.
-- PathLock models src/lock.ts as a step relation: `enter` is the loop of `read` up to the call of its
-- function, `leave` its `finally`; `write` is the chain of promises, `run` the opening of a write up to
-- `Promise.allSettled`, `call_fn` and `finish` the rest. Promises, the order of microtasks and the
-- functions are the host's: any step that can go on may be the next.
--
-- A Map or Set is an insertion-ordered list (Common.Assoc). Loops are recursions on the collection
-- that they walk. `Common.Decimal.decimal` has fuel one more than the number that is printed, and each
-- round divides that number by ten; `Xdr.Writer.doubled` has the needed capacity as its fuel, and
-- each round adds one to the capacity at least.
-- Not modelled: the sessions that decode messages and call the driver, the servers, the mount
-- commands and the drivers over other packages, which are input and output or wait for the parts
-- above; no fact about them is assumed.
mod Common
pub mod Errors
pub mod FilePath
pub mod Subtree
pub mod P9Locks
pub mod Inodes
pub mod DavLocks
pub mod Xdr
pub mod Rpc
pub mod PathLock
pub mod P9Wire
pub mod Ownership
