-- ===== src/Mikrotik/Download.antt =====
-- internal/mikrotik/client.go: the download of the archive, which is resumed behind an interruption, and
-- the header Content-Range. What the server and the file system answer are arguments.
pub mod Resumed
use mikrotik_chr_script.Common.{
  ℕ, zero, suc, ◌+◌, ◌-◌, ◌^◌, Bool, true, false, not, ◌&&◌, ◌||◌, List, [], ◌∷◌, ◌++◌, Option,
  none, some, ltb, leb, ◌==◌, if◌then◌else◌, length, take, min,
}
use mikrotik_chr_script.Common.Bytes.{Bytes, bytes_eq}
use mikrotik_chr_script.Common.Text.{codes, strip_prefix}
use mikrotik_chr_script.Common.Paths.{cut}
use mikrotik_chr_script.Common.Outcome.{Result, ok, err, ◌>>◌, ◌>>=◌, reject_if}
use mikrotik_chr_script.Install.Resources.{parse_uint}

pub data DownloadError : Type 0 where
  not_regular partial_too_large stat_failed bad_request request_failed : DownloadError
  bad_content_range wrong_start bad_status too_large open_failed seek_failed : DownloadError
  interrupted sync_failed close_failed truncated incomplete rename_failed cancelled : DownloadError
  out_of_attempts : DownloadError → DownloadError

-- `<destination>.partial`, as os.Lstat shows it
pub data Partial : Type 0 where
  absent irregular unreadable : Partial
  regular : Bytes → Partial

-- `body_ok` is false where the body breaks off behind `body`; no content length is -1.
pub record Response : Type 0 where
  pub status : ℕ
  pub content_length : Option ℕ
  pub content_range : Bytes
  pub body : Bytes
  pub body_ok : Bool

-- What the file system answers in one attempt. `room` is how many bytes it takes, if not all.
pub record FileIo : Type 0 where
  pub request_ok : Bool
  pub open_ok : Bool
  pub seek_ok : Bool
  pub room : Option ℕ
  pub sync_ok : Bool
  pub close_ok : Bool
  pub rename_ok : Bool

-- `strconv.ParseInt(s, 10, 64)`. A negative number is `none`: the callers reject it as well.
abbrev as_int64 : Option ℕ → Option ℕ
as_int64 none = none
as_int64 (some n) = if leb n (2 ^ 63 - 1) then some n else none

abbrev as_negative : Option ℕ → Option ℕ
as_negative none = none
as_negative (some n) = if n == 0 then some 0 else none

abbrev parse_int : Bytes → Option ℕ
parse_int [] = none
parse_int (c ∷ s) =
    if c == b'+'
    then as_int64 (parse_uint s)
    else if c == b'-'
    then as_negative (parse_uint s)
    else as_int64 (parse_uint (c ∷ s))

pub record ContentRange : Type 0 where
  pub start : ℕ
  pub end : ℕ
  pub total : ℕ

abbrev checked_range : Option ℕ → Option ℕ → Option ℕ → Option ContentRange
checked_range (some start) (some end) (some total) =
    if ltb end start || leb total end
    then none
    else some (record { start = start; end = end; total = total })
checked_range (some start) (some end) none = none
checked_range (some start) none total = none
checked_range none end total = none

abbrev range_of : Bytes → Bytes × Option Bytes → Option ContentRange
range_of total (start, none) = none
range_of total (start, some end) = checked_range (parse_int start) (parse_int end) (parse_int total)

abbrev range_parts : Bytes × Option Bytes → Option ContentRange
range_parts (range, none) = none
range_parts (range, some total) =
    if bytes_eq total (codes "*") then none else range_of total (cut b'-' range)

unfoldable pub parse_content_range : Bytes → Option ContentRange
parse_content_range value = elim (strip_prefix (codes "bytes ") value) [
  | none ↦ none
  | some rest ↦ range_parts (cut b'/' rest)
]

-- The offset of a request: the size of the partial file
abbrev pub offset_of : ℕ → Partial → Result DownloadError ℕ
offset_of maximum absent = ok 0
offset_of maximum irregular = err not_regular
offset_of maximum unreadable = err stat_failed
offset_of maximum (regular content) =
    if ltb maximum (length content) then err partial_too_large else ok (length content)

-- Where the body goes, and the total that is expected
abbrev pub check_start : ℕ → Option ContentRange → Result DownloadError (ℕ × Option ℕ)
check_start offset none = err bad_content_range
check_start offset (some range) =
    if range.start == offset then ok (offset, some range.total) else err wrong_start

abbrev pub placed : ℕ → Response → Result DownloadError (ℕ × Option ℕ)
placed offset response =
    if response.status == 200
    then ok (0, response.content_length)
    else if response.status == 206
    then check_start offset (parse_content_range response.content_range)
    else err bad_status

abbrev pub exceeds : Option ℕ → ℕ → Bool
exceeds none limit = false
exceeds (some n) limit = ltb limit n

abbrev pub differs : Option ℕ → ℕ → Bool
differs none n = false
differs (some m) n = not (n == m)

abbrev pub up_to : Option ℕ → Bytes → Bytes
up_to none body = body
up_to (some n) body = take n body

-- What `io.Copy` writes of the body, of which it reads no more than `limit` bytes, and whether it succeeds:
-- an error of the body shows if the limit is not reached, and one of the file if it takes less.
abbrev pub copied : FileIo → Response → ℕ → Bytes
copied io response limit = up_to io.room (take limit response.body)

abbrev pub copy_ok : FileIo → Response → ℕ → Bool
copy_ok io response limit =
    length (copied io response limit) == length (take limit response.body)
    && (response.body_ok || leb limit (length response.body))

-- The content below the offset stays: the file is truncated for 0, and else as long as the offset.
abbrev pub kept_part : ℕ → Partial → Bytes
kept_part zero partial = []
kept_part (suc offset) (regular content) = content
kept_part (suc offset) absent = []
kept_part (suc offset) irregular = []
kept_part (suc offset) unreadable = []

-- The checks behind the copy, in their order
abbrev pub check_copy :
    FileIo → Response → ℕ → ℕ → Option ℕ → Bytes → Result DownloadError (Unit {0})
check_copy io response maximum offset expected_total written = do
  reject_if (not (copy_ok io response (maximum - offset + 1))) interrupted
  reject_if (not io.sync_ok) sync_failed
  reject_if (not io.close_ok) close_failed
  reject_if (ltb maximum (offset + length written)) too_large
  reject_if (differs response.content_length (length written)) truncated
  reject_if (differs expected_total (offset + length written)) incomplete
  reject_if (not io.rename_ok) rename_failed

-- An attempt ends with the file that is complete, or with an error and the partial file that it leaves.
pub data Attempt : Type 0 where
  complete : Bytes → Attempt
  failed : DownloadError → Partial → Attempt

abbrev pub finish : Bytes → Result DownloadError (Unit {0}) → Attempt
finish content (ok done) = complete content
finish content (err problem) = failed problem (regular content)

-- The body is written behind what is kept.
abbrev pub write_body : ℕ → FileIo → Partial → Response → ℕ → Option ℕ → Attempt
write_body maximum io partial response offset expected_total =
    let written = copied io response (maximum - offset + 1) in
    let content = kept_part offset partial ++ written in
    finish content (check_copy io response maximum offset expected_total written)

abbrev pub opened : ℕ → FileIo → Partial → Response → ℕ → Option ℕ → Attempt
opened maximum io partial response offset expected_total =
    if exceeds expected_total maximum || exceeds response.content_length (maximum - offset)
    then failed too_large partial
    else if not io.open_ok
    then failed open_failed partial
    else if ltb 0 offset && not io.seek_ok
    then failed seek_failed partial
    else write_body maximum io partial response offset expected_total

abbrev pub place : ℕ → FileIo → Partial → Response → Result DownloadError (ℕ × Option ℕ) → Attempt
place maximum io partial response (err problem) = failed problem partial
place maximum io partial response (ok (offset, expected_total)) =
    opened maximum io partial response offset expected_total

abbrev pub receive : ℕ → FileIo → Partial → ℕ → Option Response → Attempt
receive maximum io partial offset none = failed request_failed partial
receive maximum io partial offset (some response) =
    place maximum io partial response (placed offset response)

-- `serve` is the answer to a request from an offset on.
abbrev pub request : ℕ → FileIo → (ℕ → Option Response) → Partial → Result DownloadError ℕ → Attempt
request maximum io serve partial (err problem) = failed problem partial
request maximum io serve partial (ok offset) =
    if not io.request_ok
    then failed bad_request partial
    else receive maximum io partial offset (serve offset)

unfoldable pub download_once : ℕ → FileIo → (ℕ → Option Response) → Partial → Attempt
download_once maximum io serve partial =
    request maximum io serve partial (offset_of maximum partial)

-- One of the attempts of `download`: its answers, and whether the context is done behind it.
pub record Round : Type 0 where
  pub io : FileIo
  pub serve : ℕ → Option Response
  pub done : Bool

-- `attempts` are those that are left behind this one.
abbrev pub next_attempt : (Partial → Attempt) → ℕ → Bool → Attempt → Attempt
next_attempt again left done (complete content) = complete content
next_attempt again zero done (failed problem partial) = failed (out_of_attempts problem) partial
next_attempt again (suc left) true (failed problem partial) = failed cancelled partial
next_attempt again (suc left) false (failed problem partial) = again partial

unfoldable pub attempts_from : ℕ → (ℕ → Round) → ℕ → Partial → Attempt
attempts_from maximum round zero partial =
    next_attempt (λ p. failed cancelled p) zero (round zero).done
      (download_once maximum (round zero).io (round zero).serve partial)
attempts_from maximum round (suc left) partial =
    next_attempt (attempts_from maximum round left) (suc left) (round (suc left)).done
      (download_once maximum (round (suc left)).io (round (suc left)).serve partial)

-- Five attempts; `round n` is the one with `n` attempts behind it.
unfoldable pub download : ℕ → (ℕ → Round) → Partial → Attempt
download maximum round partial = attempts_from maximum round 4 partial
