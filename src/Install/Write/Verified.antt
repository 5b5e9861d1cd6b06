-- ===== src/Install/Write/Verified.antt =====
-- On internal/install/write.go: the rounds of HashPrefix, on any source and behind CopyImage.
use mikrotik_chr_script.Common.{
  ℕ, zero, suc, ◌+◌, ◌-◌, ◌*◌, ◌≤◌, ◌<◌, ◌≡◌, refl, sym, ap, ◌∙◌, inl, inr, Bool, false, [], ◌++◌,
  append_assoc, append-nil, leb, length, take, drop, arith, Bool-cases, length-take, length-drop,
  take-add, drop-drop, length-append, take_append,
}
use mikrotik_chr_script.Common.Bytes.{Bytes}
use mikrotik_chr_script.Common.Outcome.{ok, is_ok}
use mikrotik_chr_script.Install.Write.{
  Source, Target, Copy, chunk_bytes, read_full, hash_step, hash_loop, hash_prefix, copy_image,
  buffer_bytes, start_copy, no_target,
}
use mikrotik_chr_script.Install.Write.Copied.{chunk_bounds, copy_image-ok}

-- The loop's state once `k` more bytes were hashed.
abbrev read_on : ℕ → Copy → Copy
read_on k s = record s {
  source = record { rest = drop k s.source.rest; broken = s.source.broken };
  hashed = s.hashed ++ take k s.source.rest;
  written = s.written + k;
}

hash_step_fits :
    (buffer total : ℕ) (s : Copy) (c : ℕ)
    → chunk_bytes buffer (total - s.written) ≡ c
    → 0 < c
    → c ≤ length s.source.rest
    → hash_step buffer total s ≡ (ok tt, read_on c s)
unfolding hash_step read_full
hash_step_fits buffer total s c e pos fits = ground (arith, length-take c s.source.rest)

hash_step_short :
    (buffer total : ℕ) (s : Copy) (c : ℕ)
    → chunk_bytes buffer (total - s.written) ≡ c
    → c ≤ total - s.written
    → length s.source.rest < c
    → is_ok (hash_step buffer total s).0 ≡ false
unfolding hash_step read_full
hash_step_short buffer total s c e bound short = ground (arith, length-take c s.source.rest)

hash_loop_fits :
    (fuel buffer total : ℕ) (s : Copy) (n : ℕ)
    → 0 < buffer
    → s.written + n ≡ total
    → n < fuel
    → n ≤ length s.source.rest
    → hash_loop fuel buffer total s ≡ (ok tt, read_on n s)
unfolding hash_loop
hash_loop_fits zero buffer total s n pos e h fits = absurd (omega arith)
hash_loop_fits (suc fuel) buffer total s zero pos e h fits = ground (arith, append-nil s.hashed)
hash_loop_fits (suc fuel) buffer total s (suc n) pos e h fits =
    let c : ℕ = chunk_bytes buffer (total - s.written) in
    let (some_bytes, no_more) = chunk_bounds buffer (total - s.written) pos (omega arith) in
    ground (
      arith,
      hash_step_fits buffer total s c refl some_bytes (omega arith),
      hash_loop_fits fuel buffer total (read_on c s) (suc n - c) pos (omega arith) (omega arith)
          (omega (arith, length-drop c s.source.rest)),
      take-add c (suc n - c) (suc n) s.source.rest (omega arith),
      drop-drop c (suc n - c) (suc n) s.source.rest (omega arith),
      append_assoc s.hashed (take c s.source.rest) (take (suc n - c) (drop c s.source.rest)),
    )

hash_loop_short :
    (fuel buffer total : ℕ) (s : Copy) (n : ℕ)
    → 0 < buffer
    → s.written + n ≡ total
    → length s.source.rest < n
    → is_ok (hash_loop fuel buffer total s).0 ≡ false
unfolding hash_loop
hash_loop_short zero buffer total s n pos e short = refl
hash_loop_short (suc fuel) buffer total s n pos e short =
    let c : ℕ = chunk_bytes buffer (total - s.written) in
    let (some_bytes, no_more) = chunk_bounds buffer (total - s.written) pos (omega arith) in
    elim (Bool-cases (leb c (length s.source.rest))) [
      | inl fits ↦ ground (
        arith,
        hash_step_fits buffer total s c refl some_bytes (ground arith),
        hash_loop_short fuel buffer total (read_on c s) (n - c) pos (omega arith)
            (ground (arith, length-drop c s.source.rest)),
      )
      | inr no_fit ↦ ground (arith, hash_step_short buffer total s c refl no_more (ground arith))
    ]

-- `hash_prefix` returns the digest of the first `size` bytes of a source that has so many.
pub hash_prefix_total :
    (digest : Bytes → Bytes) (source : Source) (size : ℕ)
    → 0 < size
    → size ≤ length source.rest
    → hash_prefix digest source size ≡ ok (digest (take size source.rest))
unfolding hash_prefix buffer_bytes
hash_prefix_total digest source size pos fits =
    ground
      (arith, hash_loop_fits (size + 1) (4 * 1024 * 1024) size (start_copy source no_target) size)

hash_prefix_short :
    (digest : Bytes → Bytes) (source : Source) (size : ℕ)
    → length source.rest < size
    → is_ok (hash_prefix digest source size) ≡ false
unfolding hash_prefix buffer_bytes
hash_prefix_short digest source size short =
    ground
      (arith, hash_loop_short (size + 1) (4 * 1024 * 1024) size (start_copy source no_target) size)

-- A `hash_prefix` that returns a digest had `size` bytes to read, `size` is not 0, and the digest is
-- that of these bytes.
pub hash_prefix-ok :
    (digest : Bytes → Bytes) (source : Source) (size : ℕ)
    → {h : Bytes} → hash_prefix digest source size ≡ ok h
    → (0 < size) × (size ≤ length source.rest) × (h ≡ digest (take size source.rest))
hash_prefix-ok digest source zero e = absurd (unfold hash_prefix in cc)
hash_prefix-ok digest source (suc n) e = elim (Bool-cases (leb (suc n) (length source.rest))) [
  | inl fits ↦ ground (arith, hash_prefix_total digest source (suc n) (omega arith) (ground arith))
  | inr short ↦ absurd (ground (arith, hash_prefix_short digest source (suc n) (ground arith)))
]

-- The read-back of a target that was empty, and may hold anything behind what `copy_image` wrote to
-- it, returns the digest that `copy_image` returned.
pub hash_prefix-copy_image :
    (digest : Bytes → Bytes) (source : Source) (target : Target) (total : ℕ) (more : Bytes)
    (broken : Bool) {h : Bytes} {s : Copy}
    → target.content ≡ []
    → copy_image digest source target total ≡ (ok h, s)
    → hash_prefix digest (record { rest = s.target.content ++ more; broken = broken }) total ≡ ok h
hash_prefix-copy_image digest source target total more broken {h} {s} empty e =
    let (pos, fits, room, h_eq, written) = copy_image-ok digest source target total e in
    let held : s.target.content ≡ take total source.rest = rw (written, empty) refl in
    let size : length s.target.content ≡ total =
      rw held (omega (arith, length-take total source.rest)) in
    let enough : total ≤ length (s.target.content ++ more) =
      omega (arith, length-append s.target.content more) in
    let back = take_append s.target.content more total size in
    hash_prefix_total digest (record { rest = s.target.content ++ more; broken = broken }) total pos
      enough
    ∙ ap (λ bytes. ok (digest bytes)) (back ∙ held)
    ∙ ap ok (sym h_eq)
