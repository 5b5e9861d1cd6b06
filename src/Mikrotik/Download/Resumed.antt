-- ===== src/Mikrotik/Download/Resumed.antt =====
-- On the download of internal/mikrotik/client.go, from a server that sends parts of one file.
use mikrotik_chr_script.Common.{
  ℕ, zero, suc, ◌+◌, ◌-◌, ◌≤◌, ◌≡◌, ◌≢◌, refl, sym, ap, ap₂, subst, ◌∙◌, ◌⊎◌, inl, inr, Bool, true,
  false, not, ◌&&◌, ◌||◌, [], ◌∷◌, ◌++◌, Option, none, some, ltb, ◌==◌, if◌then◌else◌, length, take,
  drop, min, take_all, take-add, length-take, length-append, Bool-cases, Option-cases,
  true_of_negated, ge_of_ltb, arith,
}
use mikrotik_chr_script.Common.Bytes.{Bytes}
use mikrotik_chr_script.Common.Outcome.{
  Result, ok, err, reject_if, Result-cases, >>=-eq-ok, reject_if-eq-ok,
}
use mikrotik_chr_script.Mikrotik.Download.{
  DownloadError, Partial, absent, irregular, unreadable, regular, Response, FileIo, ContentRange,
  parse_content_range, offset_of, placed, exceeds, differs, up_to, copied, copy_ok, kept_part,
  check_copy, Attempt, complete, failed, write_body, opened, place, receive, request, interrupted,
  sync_failed, close_failed, too_large, truncated, incomplete, cancelled, download_once, Round,
  next_attempt, attempts_from, download,
}

abbrev pub IsPrefix : Bytes → Bytes → Type 0
IsPrefix front whole = front ≡ take (length front) whole

take-take_le : (m n : ℕ) (xs : Bytes) → m ≤ n → take m (take n xs) ≡ take m xs
take-take_le zero n xs h = refl
take-take_le (suc m) zero xs h = absurd (omega arith)
take-take_le (suc m) (suc n) [] h = refl
take-take_le (suc m) (suc n) (x ∷ xs) h = ap (λ t. x ∷ t) (take-take_le m n xs (omega arith))

take-IsPrefix : (n : ℕ) (xs : Bytes) → IsPrefix (take n xs) xs
take-IsPrefix zero xs = refl
take-IsPrefix (suc n) [] = refl
take-IsPrefix (suc n) (x ∷ xs) = ap (λ t. x ∷ t) (take-IsPrefix n xs)

length-IsPrefix : (a b : Bytes) → IsPrefix a b → length a ≤ length b
length-IsPrefix a b h = omega (arith, length-take (length a) b, ap length h)

IsPrefix-trans : (a b c : Bytes) → IsPrefix a b → IsPrefix b c → IsPrefix a c
IsPrefix-trans a b c f g =
    f ∙ (ap (take (length a)) g ∙ take-take_le (length a) (length b) c (length-IsPrefix a b f))

-- What stands behind a front, and a front of it
append-IsPrefix :
    (offset : ℕ) (front written whole : Bytes)
    → front ≡ take offset whole
    → length front ≡ offset
    → IsPrefix written (drop offset whole)
    → IsPrefix (front ++ written) whole
append-IsPrefix offset front written whole e size h =
    ap₂ (λ a b. a ++ b) e h
    ∙ (take-add offset (length written) (offset + length written) whole refl
        ∙ ap (λ n. take n whole) (omega (arith, length-append front written)))

whole_prefix : (a b : Bytes) → IsPrefix a b → length a ≡ length b → a ≡ b
whole_prefix a b h e = h ∙ (ap (λ n. take n b) e ∙ take_all (length b) b (omega arith))

copied-IsPrefix :
    (io : FileIo) (response : Response) (limit : ℕ)
    → IsPrefix (copied io response limit) response.body
copied-IsPrefix io response limit = elim (Option-cases io.room) [
  | inl e ↦ rw (e, up_to) (take-IsPrefix limit response.body)
  | inr (n, e) ↦
      rw (e, up_to)
        (IsPrefix-trans (take n (take limit response.body)) (take limit response.body) response.body
          (take-IsPrefix n _) (take-IsPrefix limit response.body))
]

-- A copy that succeeds wrote all that was read, and the body had no error or is longer than what was read.
copy_ok-parts :
    (io : FileIo) (response : Response) (limit : ℕ)
    → copy_ok io response limit ≡ true
    → (length (copied io response limit) ≡ min limit (length response.body))
      × ((response.body_ok ≡ true) ⊎ (limit ≤ length response.body))
copy_ok-parts io response limit h =
    let size = length-take limit response.body in
    (
      (let same : length (copied io response limit) ≡ length (take limit response.body) =
            ground arith in
          omega arith),
      ground arith,
    )

-- The part of a file that a response announces
abbrev pub part_of : Bytes → Response → Bytes
part_of whole response =
    if response.status == 206
    then elim (parse_content_range response.content_range) [
      | none ↦ []
      | some range ↦ drop range.start whole
    ]
    else whole

-- A response that sends a front of that part, the whole of it if the body does not break off and has no
-- length, and that announces lengths that are right.
pub record IsHonest (whole : Bytes) (response : Response) : Type 0 where
  pub front : IsPrefix response.body (part_of whole response)
  pub length_ok :
      (response.content_length ≡ none)
      ⊎ (response.content_length ≡ some (length (part_of whole response)))
  pub total_ok :
      (parse_content_range response.content_range ≡ none)
      ⊎ ((range : ContentRange) × (parse_content_range response.content_range ≡ some range)
          × (range.total ≡ length whole))
  pub ends :
      (response.body_ok ≡ false)
      ⊎ ((response.content_length ≢ none) ⊎ (response.body ≡ part_of whole response))

abbrev pub IsPartOf : Bytes → Partial → Type 0
IsPartOf whole (regular content) = IsPrefix content whole
IsPartOf whole absent = Unit {0}
IsPartOf whole irregular = Unit {0}
IsPartOf whole unreadable = Unit {0}

-- The whole file, within the limit; or an error, with a partial file that is a front of the whole.
abbrev pub IsSound : Bytes → ℕ → Attempt → Type 0
IsSound whole maximum (complete content) = (content ≡ whole) × (length whole ≤ maximum)
IsSound whole maximum (failed problem partial) = IsPartOf whole partial

module _ (whole : Bytes) where
  record IsPlaced (response : Response) (offset : ℕ) (expected : Option ℕ) : Type 0 where
    part_ok : part_of whole response ≡ drop offset whole
    expected_ok :
        (expected ≡ some (length whole))
        ⊎ ((expected ≡ none) × (offset ≡ 0) × (response.content_length ≡ none))

  placed-IsPlaced :
      (start : ℕ) (response : Response) (offset : ℕ) (expected : Option ℕ)
      → IsHonest whole response
      → placed start response ≡ ok (offset, expected)
      → IsPlaced response offset expected × ((offset ≡ 0) ⊎ (offset ≡ start))
  placed-IsPlaced start response offset expected honest h =
      elim (Bool-cases (response.status == 200)) [
        | inl e ↦
            let part : part_of whole response ≡ whole = ground arith in
            let o : offset ≡ 0 = ground arith in
            let c : expected ≡ response.content_length = ground arith in
            (
              record {
                part_ok = part ∙ sym (ap (λ n. drop n whole) o);
                expected_ok = elim honest.length_ok [
                  | inl l ↦ inr (c ∙ l, o, l)
                  | inr l ↦ inl (c ∙ (l ∙ ap (λ p. some (length p)) part))
                ];
              },
              inl o,
            )
        | inr e ↦ elim (Bool-cases (response.status == 206)) [
          | inl e' ↦ elim (Option-cases (parse_content_range response.content_range)) [
            | inl none_read ↦ absurd (ground arith)
            | inr (range, read) ↦
                let part : part_of whole response ≡ drop range.start whole = rw (e', read) refl in
                let o : offset ≡ range.start = ground arith in
                let s : offset ≡ start = ground arith in
                let c : expected ≡ some range.total = ground arith in
                (
                  record {
                    part_ok = part ∙ sym (ap (λ n. drop n whole) o);
                    expected_ok = inl (c ∙ ap some (total_of range read honest.total_ok));
                  },
                  inr s,
                )
          ]
          | inr e' ↦ absurd (ground arith)
        ]
      ]
    where
      total_of :
          (range : ContentRange)
          → parse_content_range response.content_range ≡ some range
          → (parse_content_range response.content_range ≡ none)
            ⊎ ((r : ContentRange) × (parse_content_range response.content_range ≡ some r)
                × (r.total ≡ length whole))
          → range.total ≡ length whole
      total_of range read (inl h) = absurd cc
      total_of range read (inr (r, read', t)) =
          let same : range ≡ r = cc in ap (λ x. x.total) same ∙ t

  kept_part-take :
      (maximum start offset : ℕ) (partial : Partial)
      → offset_of maximum partial ≡ ok start
      → IsPartOf whole partial
      → (offset ≡ 0) ⊎ (offset ≡ start)
      → (kept_part offset partial ≡ take offset whole)
        × (length (kept_part offset partial) ≡ offset)
  kept_part-take maximum start zero partial h part o = (refl, refl)
  kept_part-take maximum start (suc offset) absent h part o = absurd (ground arith)
  kept_part-take maximum start (suc offset) irregular h part o = absurd cc
  kept_part-take maximum start (suc offset) unreadable h part o = absurd cc
  kept_part-take maximum start (suc offset) (regular content) h part o =
      let size : length content ≡ suc offset = ground arith in
      (part ∙ ap (λ n. take n whole) size, size)

  -- What the checks behind the copy establish
  record IsChecked (io : FileIo) (response : Response) (maximum offset : ℕ) (expected : Option ℕ)
      (written : Bytes) : Type 0 where
    copy_done : copy_ok io response (maximum - offset + 1) ≡ true
    small : offset + length written ≤ maximum
    as_expected : differs expected (offset + length written) ≡ false

  check_copy-IsChecked :
      (io : FileIo) (response : Response) (maximum offset : ℕ) (expected : Option ℕ)
      (written : Bytes)
      → check_copy io response maximum offset expected written ≡ ok tt
      → IsChecked io response maximum offset expected written
  check_copy-IsChecked io response maximum offset expected written h =
      let (u1, c1, h1) =
        >>=-eq-ok (reject_if (not (copy_ok io response (maximum - offset + 1))) interrupted) _ h in
      let (u2, c2, h2) = >>=-eq-ok (reject_if (not io.sync_ok) sync_failed) _ h1 in
      let (u3, c3, h3) = >>=-eq-ok (reject_if (not io.close_ok) close_failed) _ h2 in
      let (u4, c4, h4) =
        >>=-eq-ok (reject_if (ltb maximum (offset + length written)) too_large) _ h3 in
      let (u5, c5, h5) =
        >>=-eq-ok (reject_if (differs response.content_length (length written)) truncated) _ h4 in
      let (u6, c6, h6) =
        >>=-eq-ok (reject_if (differs expected (offset + length written)) incomplete) _ h5 in
      record {
        copy_done = true_of_negated _ (reject_if-eq-ok _ interrupted c1);
        small = ge_of_ltb maximum (offset + length written) (reject_if-eq-ok _ too_large c4);
        as_expected = reject_if-eq-ok _ incomplete c6;
      }

  -- Every byte is there: the lengths agree, or the body came to its end.
  all_written :
      (io : FileIo) (response : Response) (maximum offset : ℕ) (expected : Option ℕ)
      → IsHonest whole response
      → IsPlaced response offset expected
      → IsChecked io response maximum offset expected (copied io response (maximum - offset + 1))
      → offset + length (copied io response (maximum - offset + 1)) ≡ length whole
  all_written io response maximum offset expected honest placed_ok checked =
      elim placed_ok.expected_ok [
        | inl e ↦
            let d =
              subst
                (λ x.
                  differs x (offset + length (copied io response (maximum - offset + 1))) ≡ false)
                e checked.as_expected in
            ground arith
        | inr (e, o, none_given) ↦ elim honest.ends [
          | inl broken ↦
              let (full, ended) =
                copy_ok-parts io response (maximum - offset + 1) checked.copy_done in
              let small = checked.small in
              absurd (elim ended [ inl fine ↦ cc | inr long ↦ omega arith ])
          | inr (inl given) ↦ absurd (given none_given)
          | inr (inr all) ↦
              let (full, ended) =
                copy_ok-parts io response (maximum - offset + 1) checked.copy_done in
              let small = checked.small in
              let size = ap length (all ∙ (placed_ok.part_ok ∙ ap (λ n. drop n whole) o)) in
              omega arith
        ]
      ]

  write_body-IsSound :
      (maximum start : ℕ) (io : FileIo) (partial : Partial) (response : Response) (offset : ℕ)
      (expected : Option ℕ)
      → offset_of maximum partial ≡ ok start
      → IsPartOf whole partial
      → IsHonest whole response
      → placed start response ≡ ok (offset, expected)
      → IsSound whole maximum (write_body maximum io partial response offset expected)
  write_body-IsSound maximum start io partial response offset expected at part honest at_offset =
      let (placed_ok, low) = placed-IsPlaced start response offset expected honest at_offset in
      let (base, size) = kept_part-take maximum start offset partial at part low in
      let written = copied io response (maximum - offset + 1) in
      let front = append-IsPrefix offset (kept_part offset partial) written whole base size (
        subst (IsPrefix written) placed_ok.part_ok (
          IsPrefix-trans written response.body (part_of whole response)
            (copied-IsPrefix io response (maximum - offset + 1)) honest.front)) in
      elim (Result-cases (check_copy io response maximum offset expected written)) [
        | inl (done, e) ↦
            let checked = check_copy-IsChecked io response maximum offset expected written e in
            let full = all_written io response maximum offset expected honest placed_ok checked in
            let small = checked.small in
            rw e (
              (
                whole_prefix (kept_part offset partial ++ written) whole front
                    (omega (arith, length-append (kept_part offset partial) written)),
                omega arith,
              ))
        | inr (problem, e) ↦ rw e front
      ]

  opened-IsSound :
      (maximum start : ℕ) (io : FileIo) (partial : Partial) (response : Response) (offset : ℕ)
      (expected : Option ℕ)
      → offset_of maximum partial ≡ ok start
      → IsPartOf whole partial
      → IsHonest whole response
      → placed start response ≡ ok (offset, expected)
      → IsSound whole maximum (opened maximum io partial response offset expected)
  opened-IsSound maximum start io partial response offset expected at part honest at_offset =
      elim (Bool-cases
        (exceeds expected maximum || exceeds response.content_length (maximum - offset))) [
          | inl e ↦ rw e part
          | inr e ↦ elim (Bool-cases (not io.open_ok)) [
            | inl e1 ↦ rw (e, e1) part
            | inr e1 ↦ elim (Bool-cases (ltb 0 offset && not io.seek_ok)) [
              | inl e2 ↦ rw (e, e1, e2) part
              | inr e2 ↦
                  rw (e, e1, e2)
                    (write_body-IsSound maximum start io partial response offset expected at part
                      honest at_offset)
            ]
          ]
        ]

  place-IsSound :
      (maximum start : ℕ) (io : FileIo) (partial : Partial) (response : Response)
      (where_to : Result DownloadError (ℕ × Option ℕ))
      → placed start response ≡ where_to
      → offset_of maximum partial ≡ ok start
      → IsPartOf whole partial
      → IsHonest whole response
      → IsSound whole maximum (place maximum io partial response where_to)
  place-IsSound maximum start io partial response (err problem) e at part honest = part
  place-IsSound maximum start io partial response (ok (offset, expected)) e at part honest =
      opened-IsSound maximum start io partial response offset expected at part honest e

  receive-IsSound :
      (maximum start : ℕ) (io : FileIo) (partial : Partial) (answer : Option Response)
      → offset_of maximum partial ≡ ok start
      → IsPartOf whole partial
      → ((response : Response) → answer ≡ some response → IsHonest whole response)
      → IsSound whole maximum (receive maximum io partial start answer)
  receive-IsSound maximum start io partial none at part honest = part
  receive-IsSound maximum start io partial (some response) at part honest =
      place-IsSound maximum start io partial response (placed start response) refl at part
        (honest response refl)

  abbrev IsHonestServer : (ℕ → Option Response) → Type 0
  IsHonestServer serve =
      (offset : ℕ) (response : Response) → serve offset ≡ some response → IsHonest whole response

  request-IsSound :
      (maximum : ℕ) (io : FileIo) (serve : ℕ → Option Response) (partial : Partial)
      (at : Result DownloadError ℕ)
      → offset_of maximum partial ≡ at
      → IsPartOf whole partial
      → IsHonestServer serve
      → IsSound whole maximum (request maximum io serve partial at)
  request-IsSound maximum io serve partial (err problem) e part honest = part
  request-IsSound maximum io serve partial (ok start) e part honest =
      elim (Bool-cases (not io.request_ok)) [
        | inl b ↦ rw b part
        | inr b ↦
            rw b (receive-IsSound maximum start io partial (serve start) e part (honest start))
      ]

  download_once-IsSound :
      (maximum : ℕ) (io : FileIo) (serve : ℕ → Option Response) (partial : Partial)
      → IsPartOf whole partial
      → IsHonestServer serve
      → IsSound whole maximum (download_once maximum io serve partial)
  unfolding download_once
  download_once-IsSound maximum io serve partial part honest =
      request-IsSound maximum io serve partial (offset_of maximum partial) refl part honest

  next_attempt-IsSound :
      (maximum : ℕ) (again : Partial → Attempt) (left : ℕ) (done : Bool) (attempt : Attempt)
      → ((p : Partial) → IsPartOf whole p → IsSound whole maximum (again p))
      → IsSound whole maximum attempt
      → IsSound whole maximum (next_attempt again left done attempt)
  next_attempt-IsSound maximum again left done (complete content) rest h = h
  next_attempt-IsSound maximum again zero done (failed problem partial) rest h = h
  next_attempt-IsSound maximum again (suc left) true (failed problem partial) rest h = h
  next_attempt-IsSound maximum again (suc left) false (failed problem partial) rest h =
      rest partial h

  attempts_from-IsSound :
      (maximum : ℕ) (round : ℕ → Round)
      → ((n offset : ℕ) (response : Response)
          → (round n).serve offset ≡ some response
          → IsHonest whole response)
      → (left : ℕ) (partial : Partial) → IsPartOf whole partial
      → IsSound whole maximum (attempts_from maximum round left partial)
  unfolding attempts_from
  attempts_from-IsSound maximum round honest zero partial part =
      next_attempt-IsSound maximum (λ p. failed cancelled p) zero (round zero).done _ (λ p h. h)
        (download_once-IsSound maximum (round zero).io (round zero).serve partial part
          (honest zero))
  attempts_from-IsSound maximum round honest (suc left) partial part =
      next_attempt-IsSound maximum (attempts_from maximum round left) (suc left)
        (round (suc left)).done _ (attempts_from-IsSound maximum round honest left)
        (download_once-IsSound maximum (round (suc left)).io (round (suc left)).serve partial part
          (honest (suc left)))

  -- From a server whose responses are honest about one file, and with a partial file that is absent, no
  -- regular file, or a front of that file: the download, of up to five attempts that resume one another,
  -- either ends with exactly that file, whose length is within the limit, or fails with such a partial file
  -- again. Honest is a response whose body is a front of the part that its status and Content-Range
  -- announce, all of it where it has no length and does not break off, and whose lengths are right.
  pub download-IsSound :
      (maximum : ℕ) (round : ℕ → Round) (partial : Partial)
      → ((n offset : ℕ) (response : Response)
          → (round n).serve offset ≡ some response
          → IsHonest whole response)
      → IsPartOf whole partial
      → IsSound whole maximum (download maximum round partial)
  unfolding download
  download-IsSound maximum round partial honest part =
      attempts_from-IsSound maximum round honest 4 partial part
