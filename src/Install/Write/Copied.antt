-- ===== src/Install/Write/Copied.antt =====
-- On internal/install/write.go: the rounds of CopyImage.
use mikrotik_chr_script.Common.{
  ℕ, zero, suc, ◌+◌, ◌-◌, ◌*◌, ◌≤◌, ◌<◌, ◌≡◌, refl, ◌⊎◌, inl, inr, false, ◌++◌, ◌&&◌, append_assoc,
  append-nil, leb, length, take, drop, arith, Bool-cases, length-take, length-drop, take-add,
  drop-drop,
}
use mikrotik_chr_script.Common.Bytes.{Bytes}
use mikrotik_chr_script.Common.Outcome.{ok, is_ok}
use mikrotik_chr_script.Install.Write.{
  Source, Target, Copy, chunk_bytes, read_full, write, copy_step, copy_loop, copy_image,
  buffer_bytes, start_copy,
}

-- The loop's state once `k` more bytes went through.
abbrev pub advance : ℕ → Copy → Copy
advance k s = record s {
  source = record { rest = drop k s.source.rest; broken = s.source.broken };
  target = record {
    content = s.target.content ++ take k s.source.rest;
    room = s.target.room - k;
    silent = s.target.silent;
  };
  hashed = s.hashed ++ take k s.source.rest;
  written = s.written + k;
}

pub chunk_bounds :
    (buffer n : ℕ) → 0 < buffer → 0 < n → (0 < chunk_bytes buffer n) × (chunk_bytes buffer n ≤ n)
chunk_bounds buffer n pos more = ground arith

copy_step_fits :
    (buffer total : ℕ) (s : Copy) (c : ℕ)
    → chunk_bytes buffer (total - s.written) ≡ c
    → 0 < c
    → c ≤ length s.source.rest
    → c ≤ s.target.room
    → copy_step buffer total s ≡ (ok tt, advance c s)
unfolding copy_step read_full write
copy_step_fits buffer total s c e pos fits room = ground (arith, length-take c s.source.rest)

advance-advance :
    (s : Copy) (m n k : ℕ)
    → m + n ≡ k
    → k ≤ length s.source.rest
    → k ≤ s.target.room
    → advance n (advance m s) ≡ advance k s
advance-advance s m n k e fits room = ground (
  arith,
  take-add m n k s.source.rest e,
  drop-drop m n k s.source.rest e,
  append_assoc s.target.content (take m s.source.rest) (take n (drop m s.source.rest)),
  append_assoc s.hashed (take m s.source.rest) (take n (drop m s.source.rest)),
)

-- The bytes left to copy, with room for all of them: the loop ends well, all of them copied.
copy_loop_fits :
    (fuel buffer total : ℕ) (s : Copy) (n : ℕ)
    → 0 < buffer
    → s.written + n ≡ total
    → n < fuel
    → n ≤ length s.source.rest
    → n ≤ s.target.room
    → copy_loop fuel buffer total s ≡ (ok tt, advance n s)
unfolding copy_loop
copy_loop_fits zero buffer total s n pos e h fits room = absurd (omega arith)
copy_loop_fits (suc fuel) buffer total s zero pos e h fits room =
    ground (arith, append-nil s.target.content, append-nil s.hashed)
copy_loop_fits (suc fuel) buffer total s (suc n) pos e h fits room =
    let c : ℕ = chunk_bytes buffer (total - s.written) in
    let (some_bytes, no_more) = chunk_bounds buffer (total - s.written) pos (omega arith) in
    ground (
      arith,
      copy_step_fits buffer total s c refl some_bytes (omega arith) (omega arith),
      copy_loop_fits fuel buffer total (advance c s) (suc n - c) pos (omega arith) (omega arith)
          (omega (arith, length-drop c s.source.rest)) (omega arith),
      advance-advance s c (suc n - c) (suc n) (omega arith) fits room,
    )

copy_step_short :
    (buffer total : ℕ) (s : Copy) (c : ℕ)
    → chunk_bytes buffer (total - s.written) ≡ c
    → c ≤ total - s.written
    → 0 < c
    → (length s.source.rest < c) ⊎ (s.target.room < c)
    → is_ok (copy_step buffer total s).0 ≡ false
unfolding copy_step read_full write
copy_step_short buffer total s c e bound pos short = ground (arith, length-take c s.source.rest)

copy_loop_short :
    (fuel buffer total : ℕ) (s : Copy) (n : ℕ)
    → 0 < buffer
    → s.written + n ≡ total
    → (length s.source.rest < n) ⊎ (s.target.room < n)
    → is_ok (copy_loop fuel buffer total s).0 ≡ false
unfolding copy_loop
copy_loop_short zero buffer total s n pos e short = refl
copy_loop_short (suc fuel) buffer total s n pos e short =
    let c : ℕ = chunk_bytes buffer (total - s.written) in
    let (some_bytes, no_more) = chunk_bounds buffer (total - s.written) pos (omega arith) in
    elim (Bool-cases (leb c (length s.source.rest) && leb c s.target.room)) [
      | inl fits ↦ ground (
        arith,
        copy_step_fits buffer total s c refl some_bytes (ground arith) (ground arith),
        copy_loop_short fuel buffer total (advance c s) (n - c) pos (omega arith)
            (ground (arith, length-drop c s.source.rest)),
      )
      | inr no_fit ↦
          ground (arith, copy_step_short buffer total s c refl no_more some_bytes (ground arith))
    ]

-- With at least `total` bytes in the source and room for them, `copy_image` succeeds: it returns
-- the digest of the first `total` bytes, these stand behind what the target held, and the source
-- goes on behind them.
pub copy_image_total :
    (digest : Bytes → Bytes) (source : Source) (target : Target) (total : ℕ)
    → 0 < total
    → total ≤ length source.rest
    → total ≤ target.room
    → copy_image digest source target total
      ≡ (ok (digest (take total source.rest)), advance total (start_copy source target))
unfolding copy_image buffer_bytes
copy_image_total digest source target total pos fits room =
    ground
      (arith, copy_loop_fits (total + 1) (4 * 1024 * 1024) total (start_copy source target) total)

-- A source that ends too early, or a target with too little room, is an error.
pub copy_image_short :
    (digest : Bytes → Bytes) (source : Source) (target : Target) (total : ℕ)
    → (length source.rest < total) ⊎ (target.room < total)
    → is_ok (copy_image digest source target total).0 ≡ false
unfolding copy_image buffer_bytes
copy_image_short digest source target total short =
    ground
      (arith, copy_loop_short (total + 1) (4 * 1024 * 1024) total (start_copy source target) total)

copy_image-zero :
    (digest : Bytes → Bytes) (source : Source) (target : Target)
    → is_ok (copy_image digest source target 0).0 ≡ false
unfolding copy_image
copy_image-zero digest source target = refl

-- A `copy_image` that returns a digest had `total` bytes to read and room for them, `total` is not
-- 0, the digest is that of these bytes, and the target holds exactly them behind its old content.
pub copy_image-ok :
    (digest : Bytes → Bytes) (source : Source) (target : Target) (total : ℕ)
    → {h : Bytes} {s : Copy} → copy_image digest source target total ≡ (ok h, s)
    → (0 < total)
      × (total ≤ length source.rest)
      × (total ≤ target.room)
      × (h ≡ digest (take total source.rest))
      × (s.target.content ≡ target.content ++ take total source.rest)
copy_image-ok digest source target zero e = cc (copy_image-zero digest source target)
copy_image-ok digest source target (suc n) e =
    let total = suc n in
    elim (Bool-cases (leb total (length source.rest) && leb total target.room)) [
      | inl fits ↦ ground (
        arith,
        copy_image_total digest source target total (omega arith) (ground arith) (ground arith),
      )
      | inr short ↦
          absurd (ground (arith, copy_image_short digest source target total (ground arith)))
    ]
