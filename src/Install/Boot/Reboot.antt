-- ===== src/Install/Boot/Reboot.antt =====
-- On internal/install/stage.go: a boot by one command, and by another where the first one fails.
use mikrotik_chr_script.Common.{◌≡◌, ◌⊎◌, true, false, List, ◌∷◌}
use mikrotik_chr_script.Common.Bytes.{Bytes}
use mikrotik_chr_script.Install.Calls.{run, History, System}

module _ (system : System) (first second : List Bytes) where
  -- One of the two commands succeeded; the second one was called only where the first one failed.
  abbrev pub BootedBy : History → History → Type 0
  BootedBy h h' =
      (((system.reply h first).success ≡ true) × (h' ≡ run first ∷ h))
      ⊎ (((system.reply h first).success ≡ false)
          × ((system.reply (run first ∷ h) second).success ≡ true)
          × (h' ≡ run second ∷ run first ∷ h))

  abbrev pub RefusedBoth : History → History → Type 0
  RefusedBoth h h' =
      ((system.reply h first).success ≡ false)
      × ((system.reply (run first ∷ h) second).success ≡ false)
      × (h' ≡ run second ∷ run first ∷ h)
