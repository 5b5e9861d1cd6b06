-- ===== src/Install/Write.antt =====
-- internal/install/write.go: the image goes to the target in chunks, and is read back in chunks.
-- A reader is what it has left to give and how it ends; a writer is what it holds and its room.
-- `hash` of crypto/sha256 is fed piece by piece; its state is what it was fed, and `digest`, a
-- parameter, stands for `hex.EncodeToString(hash.Sum(nil))`.
pub mod Copied
pub mod Verified
use mikrotik_chr_script.Common.{
  ℕ, zero, suc, ◌+◌, ◌-◌, ◌*◌, Bool, true, false, Option, none, some, List, [], ◌∷◌, ◌++◌, ltb, leb,
  ◌==◌, if◌then◌else◌, length, take, drop,
}
use mikrotik_chr_script.Common.Bytes.{Bytes}
use mikrotik_chr_script.Common.Outcome.{Result, ok, err}

-- `broken`: behind the bytes of `rest` the reader fails; otherwise it ends.
pub record Source : Type 0 where
  pub rest : Bytes
  pub broken : Bool

-- What `io.ReadFull` says of the buffer: filled, `io.ErrUnexpectedEOF`, `io.EOF`, another error.
pub data ReadEnd : Type 0 where
  filled unexpected_end ended failed : ReadEnd

pub record ReadResult : Type 0 where
  pub part : Bytes
  pub end : ReadEnd
  pub source : Source

abbrev short_end : Bool → Bytes → ReadEnd
short_end true part = failed
short_end false [] = ended
short_end false (b ∷ bs) = unexpected_end

-- `io.ReadFull` on a buffer of `n` bytes
unfoldable pub read_full : Source → ℕ → ReadResult
read_full s n =
    if leb n (length s.rest)
    then record { part = take n s.rest; end = filled; source = record s { rest = drop n s.rest } }
    else record { part = s.rest; end = short_end s.broken s.rest; source = record s { rest = [] } }

-- `silent`: a write that does not fit is cut short and reports no error.
pub record Target : Type 0 where
  pub content : Bytes
  pub room : ℕ
  pub silent : Bool

pub record WriteResult : Type 0 where
  pub count : ℕ
  pub failure : Bool
  pub target : Target

-- `target.Write(part)`
unfoldable pub write : Target → Bytes → WriteResult
write t part =
    if leb (length part) t.room
    then record {
      count = length part;
      failure = false;
      target = record t { content = t.content ++ part; room = t.room - length part };
    }
    else record {
      count = t.room;
      failure = if t.silent then false else true;
      target = record t { content = t.content ++ take t.room part; room = 0 };
    }

-- `stuck` is no error of the program: the fuel of a loop ran out.
pub data Error : Type 0 where
  invalid_size end_of_file read_failed unexpected_eof write_failed short_write stuck : Error

-- The variables of the loops. A reader alone (`HashPrefix`) leaves `target` as it is.
pub record Copy : Type 0 where
  pub source : Source
  pub target : Target
  pub hashed : Bytes
  pub written : ℕ

-- `chunk := buffer`, cut to what remains
abbrev pub chunk_bytes : ℕ → ℕ → ℕ
chunk_bytes buffer remaining = if ltb remaining buffer then remaining else buffer

-- The test behind `progress`: a short read ends the copy, unless it was the last one.
abbrev after_read : ReadEnd → ℕ → Copy → Result Error (Unit {0}) × Copy
after_read unexpected_end total s =
    if s.written == total then (ok tt, s) else (err unexpected_eof, s)
after_read end total s = (ok tt, s)

-- From `target.Write(part)` on.
abbrev copy_part : ReadResult → ℕ → Copy → Result Error (Unit {0}) × Copy
copy_part r total s =
    let w = write s.target r.part in
    let t = record s { source = r.source; target = w.target; hashed = s.hashed ++ r.part } in
    if w.failure
    then (err write_failed, t)
    else if w.count == length r.part
    then after_read r.end total (record t { written = s.written + length r.part })
    else (err short_write, t)

-- The tests behind `io.ReadFull`.
abbrev after_read_full : ReadEnd → ReadResult → ℕ → Copy → Result Error (Unit {0}) × Copy
after_read_full ended r total s = (err end_of_file, record s { source = r.source })
after_read_full failed r total s = (err read_failed, record s { source = r.source })
after_read_full end r total s =
    if length r.part == 0
    then (err unexpected_eof, record s { source = r.source })
    else copy_part r total s

-- The body of the loop of `CopyImage`.
unfoldable pub copy_step : ℕ → ℕ → Copy → Result Error (Unit {0}) × Copy
copy_step buffer total s =
    let r = read_full s.source (chunk_bytes buffer (total - s.written)) in
    after_read_full r.end r total s

abbrev continue :
    Result Error (Unit {0}) × Copy
    → (Copy → Result Error (Unit {0}) × Copy)
    → Result Error (Unit {0}) × Copy
continue (ok u, s) f = f s
continue (err e, s) f = (err e, s)

unfoldable pub copy_loop : ℕ → ℕ → ℕ → Copy → Result Error (Unit {0}) × Copy
copy_loop zero buffer total s = (err stuck, s)
copy_loop (suc fuel) buffer total s = elim (ltb s.written total) [
  | true ↦ continue (copy_step buffer total s) (copy_loop fuel buffer total)
  | false ↦ (ok tt, s)
]

-- `make([]byte, 4*1024*1024)`
unfoldable pub buffer_bytes : ℕ
buffer_bytes = 4 * 1024 * 1024

abbrev pub start_copy : Source → Target → Copy
start_copy source target = record { source = source; target = target; hashed = []; written = 0 }

abbrev pub finish_copy :
    (Bytes → Bytes) → Result Error (Unit {0}) × Copy → Result Error Bytes × Copy
finish_copy digest (ok u, s) = (ok (digest s.hashed), s)
finish_copy digest (err e, s) = (err e, s)

-- A round takes a byte at least, so `total + 1` rounds are enough.
unfoldable pub copy_image : (Bytes → Bytes) → Source → Target → ℕ → Result Error Bytes × Copy
copy_image digest source target total =
    if total == 0
    then (err invalid_size, start_copy source target)
    else finish_copy digest (copy_loop (total + 1) buffer_bytes total (start_copy source target))

-- The tests behind `io.ReadFull` in `HashPrefix`.
abbrev hash_part : ReadEnd → ReadResult → ℕ → Copy → Result Error (Unit {0}) × Copy
hash_part ended r total s = (err end_of_file, record s { source = r.source })
hash_part failed r total s = (err read_failed, record s { source = r.source })
hash_part end r total s =
    if length r.part == 0
    then (err unexpected_eof, record s { source = r.source })
    else after_read end total (record s {
      source = r.source;
      hashed = s.hashed ++ r.part;
      written = s.written + length r.part;
    })

unfoldable pub hash_step : ℕ → ℕ → Copy → Result Error (Unit {0}) × Copy
hash_step buffer total s =
    let r = read_full s.source (chunk_bytes buffer (total - s.written)) in hash_part r.end r total s

unfoldable pub hash_loop : ℕ → ℕ → ℕ → Copy → Result Error (Unit {0}) × Copy
hash_loop zero buffer total s = (err stuck, s)
hash_loop (suc fuel) buffer total s = elim (ltb s.written total) [
  | true ↦ continue (hash_step buffer total s) (hash_loop fuel buffer total)
  | false ↦ (ok tt, s)
]

abbrev no_target : Target
no_target = record { content = []; room = 0; silent = false }

unfoldable pub hash_prefix : (Bytes → Bytes) → Source → ℕ → Result Error Bytes
hash_prefix digest source size =
    if size == 0
    then err invalid_size
    else (finish_copy digest
        (hash_loop (size + 1) buffer_bytes size (start_copy source no_target))).0
