-- ===== src/Mikrotik/DownloadTests.antt =====
-- A download that breaks off and is resumed, on which the theorem on internal/mikrotik/client.go is applied.
use mikrotik_chr_script.Common.{
  ℕ, true, false, [], ◌∷◌, Option, none, some, ◌≡◌, refl, inl, inr, ◌==◌, if◌then◌else◌, Bool-cases,
  subst, arith,
}
use mikrotik_chr_script.Common.Bytes.{Bytes}
use mikrotik_chr_script.Common.Text.{codes}
use mikrotik_chr_script.Install.Resources.{parse_digits}
use mikrotik_chr_script.Mikrotik.Download.{
  absent, Response, FileIo, Round, complete, parse_content_range, download_once, attempts_from,
  download,
}
use mikrotik_chr_script.Mikrotik.Download.Resumed.{IsHonest, IsSound, download-IsSound}

abbrev a_file : Bytes
a_file = 1 ∷ 2 ∷ 3 ∷ 4 ∷ 5 ∷ []

-- The first answer breaks off behind three bytes, the second sends the rest.
abbrev first_answer : Response
first_answer = record {
  status = 200;
  content_length = some 5;
  content_range = [];
  body = 1 ∷ 2 ∷ 3 ∷ [];
  body_ok = false;
}

abbrev second_answer : Response
second_answer = record {
  status = 206;
  content_length = some 2;
  content_range = codes "bytes 3-4/5";
  body = 4 ∷ 5 ∷ [];
  body_ok = true;
}

abbrev fine_io : FileIo
fine_io = record {
  request_ok = true;
  open_ok = true;
  seek_ok = true;
  room = none;
  sync_ok = true;
  close_ok = true;
  rename_ok = true;
}

abbrev answer : ℕ → Option Response
answer offset = if offset == 0 then some first_answer else some second_answer

abbrev two_rounds : ℕ → Round
two_rounds n = record { io = fine_io; serve = answer; done = false }

first-IsHonest : IsHonest a_file first_answer
unfolding parse_content_range
first-IsHonest = record { front = refl; length_ok = inr refl; total_ok = inl refl; ends = inl refl }

second-IsHonest : IsHonest a_file second_answer
unfolding parse_content_range parse_digits
second-IsHonest = record {
  front = refl;
  length_ok = inr refl;
  total_ok = inr (_, refl, refl);
  ends = inr (inr refl);
}

answer-IsHonest :
    (n offset : ℕ) (response : Response)
    → (two_rounds n).serve offset ≡ some response
    → IsHonest a_file response
answer-IsHonest n offset response e = elim (Bool-cases (offset == 0)) [
  | inl z ↦
      let same : first_answer ≡ response = ground arith in
      subst (IsHonest a_file) same first-IsHonest
  | inr z ↦
      let same : second_answer ≡ response = ground arith in
      subst (IsHonest a_file) same second-IsHonest
]

download_example : IsSound a_file 10 (download 10 two_rounds absent)
download_example = download-IsSound a_file 10 two_rounds absent answer-IsHonest tt

-- The second attempt completes the file.
download_run : download 10 two_rounds absent ≡ complete a_file
unfolding download attempts_from download_once parse_content_range parse_digits
download_run = refl
