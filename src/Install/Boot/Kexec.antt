-- ===== src/Install/Boot/Kexec.antt =====
-- On internal/install/stage.go: the calls of executeKexec.
use mikrotik_chr_script.Common.{
  ◌≡◌, ◌≢◌, ◌⊎◌, inl, inr, refl, subst, true, false, List, [], ◌∷◌, arith, Bool-cases,
}
use mikrotik_chr_script.Common.Bytes.{Bytes}
use mikrotik_chr_script.Common.Text.{codes}
use mikrotik_chr_script.Common.Outcome.{Result, ok, err}
use mikrotik_chr_script.Install.Calls.{Event, run, History, System}
use mikrotik_chr_script.Install.Boot.Reboot.{BootedBy, RefusedBoth}
use mikrotik_chr_script.Install.Boot.{
  Stage, BootError, kexec, systemctl, load, load_failed, cleanup_stage, execute_kexec,
  after_cleanup, unload,
}

module _ (system : System) (stage : Stage) where
  -- How a boot by kexec ends, once the image is loaded and the clean-up has left `cleaned`
  abbrev pub EndsBooted :
      List Event × History → Result (BootError × List Event) (Unit {0}) → History → Type 0
  EndsBooted cleaned r h' =
      (r ≡ ok tt)
      × (cleaned.0 ≡ [])
      × BootedBy system (systemctl (codes "kexec")) (kexec (codes "-e")) cleaned.1 h'

  -- The last call unloads the image; in front of it stands the clean-up, where that had an error, or
  -- both calls that boot, which have failed.
  abbrev pub EndsUnloaded :
      List Event × History → Result (BootError × List Event) (Unit {0}) → History → Type 0
  EndsUnloaded cleaned r h' =
      (r ≢ ok tt)
      × (rest : History) × (h' ≡ run (kexec (codes "-u")) ∷ rest)
      × (((cleaned.0 ≢ []) × (rest ≡ cleaned.1))
          ⊎ ((cleaned.0 ≡ [])
              × RefusedBoth system (systemctl (codes "kexec")) (kexec (codes "-e")) cleaned.1 rest))

  unload-after_cleanup :
      (s : List Event × History)
      → EndsBooted s
          (unload system (after_cleanup system s)).0
          (unload system (after_cleanup system s)).1
        ⊎ EndsUnloaded s
            (unload system (after_cleanup system s)).0
            (unload system (after_cleanup system s)).1
  unload-after_cleanup ([], h) =
      let first : List Bytes = systemctl (codes "kexec") in
      let second : List Bytes = kexec (codes "-e") in
      elim (Bool-cases (system.reply h first).success) [
        | inl booted ↦ rw booted (inl (refl, refl, inl (refl, refl)))
        | inr not_booted ↦ elim (Bool-cases (system.reply (run first ∷ h) second).success) [
          | inl booted ↦ rw (not_booted, booted) (inl (refl, refl, inr (refl, refl, refl)))
          | inr neither ↦
              rw (not_booted, neither)
                (inr (
                  λ eq. absurd cc,
                  run second ∷ run first ∷ h,
                  refl,
                  inr (refl, (refl, refl, refl)),
                ))
        ]
      ]
  unload-after_cleanup (e ∷ es, h) = inr (λ eq. absurd cc, h, refl, inl (λ eq. absurd cc, refl))

  -- A boot by kexec that succeeds loaded the image, removed the staged files without an error, and
  -- called `systemctl kexec`, which succeeded, or failed and was followed by a `kexec -e` that
  -- succeeded. One that fails could not load the image, and calls nothing more, or its last call unloads
  -- the image, behind a clean-up with an error or behind both calls that boot, which failed.
  pub execute_kexec-ends :
      (h h' : History) (r : Result (BootError × List Event) (Unit {0}))
      → execute_kexec system stage h ≡ (r, h')
      → (((system.reply h (load stage)).success ≡ true)
          × (EndsBooted (cleanup_stage system stage false false (run (load stage) ∷ h)) r h'
              ⊎ EndsUnloaded (cleanup_stage system stage false false (run (load stage) ∷ h)) r h'))
        ⊎ (((system.reply h (load stage)).success ≡ false)
            × (r ≡ err (load_failed, []))
            × (h' ≡ run (load stage) ∷ h))
  unfolding execute_kexec
  execute_kexec-ends h h' r e = elim (Bool-cases (system.reply h (load stage)).success) [
    | inl loaded ↦
        let s = cleanup_stage system stage false false (run (load stage) ∷ h) in
        let ended : unload system (after_cleanup system s) ≡ (r, h') = ground arith in
        inl (
          loaded,
          subst (λ t. EndsBooted s t.0 t.1 ⊎ EndsUnloaded s t.0 t.1) ended (unload-after_cleanup s),
        )
    | inr refused ↦ inr (refused, ground arith, ground arith)
  ]
