-- ===== src/Devices/Mounting.antt =====
-- Which module devmgr_try_mount leaves a volume to: kernel/src/devmgr/devmgr.cc.
use neptun_os.Base.{
  ◌≡◌, ◌⊎◌, refl, inl, inr, Bool, true, false, List, [], ◌∷◌, ◌++◌, Outcome, ok, ◌>>=◌, ◌==◌,
}
use neptun_os.Devices.{ModuleMetadata, devmgr_try_mount, filesystem_trigger}

module _ {ℓ} {S : Type ℓ} (launch_fs : ModuleMetadata → S → Outcome (Bool × S)) where
  -- Each module for file systems refuses the volume, from state `s` to state `s'`.
  abbrev pub AreRefused : List ModuleMetadata → (s s' : S) → Type ℓ
  AreRefused [] s s' = s ≡ s'
  AreRefused (md ∷ mds) s s' =
      ((md.triggertype == filesystem_trigger) ≡ true
        × ((s1 : S) × (launch_fs md s ≡ ok (false, s1)) × AreRefused mds s1 s'))
      ⊎ ((md.triggertype == filesystem_trigger) ≡ false × AreRefused mds s s')

  -- The first module for file systems that does not refuse the volume mounts it, and those behind it are not
  -- started.
  pub devmgr_try_mount-AreRefused :
      (before after : List ModuleMetadata) (md : ModuleMetadata) (s s' s'' : S)
      → AreRefused before s s'
      → (md.triggertype == filesystem_trigger) ≡ true
      → launch_fs md s' ≡ ok (true, s'')
      → devmgr_try_mount launch_fs (before ++ md ∷ after) s ≡ ok s''
  unfolding devmgr_try_mount
  devmgr_try_mount-AreRefused [] after md s s' s'' same fs mounts =
      rw (fs, devmgr_try_mount) (rw same (rw (mounts, ◌>>=◌) refl))
  devmgr_try_mount-AreRefused (m ∷ before) after md s s' s'' (inl (is_fs, (s1, refuses, others))) fs
        mounts =
      rw (is_fs, devmgr_try_mount)
        (rw (refuses, ◌>>=◌)
          (devmgr_try_mount-AreRefused before after md s1 s' s'' others fs mounts))
  devmgr_try_mount-AreRefused (m ∷ before) after md s s' s'' (inr (no_fs, others)) fs mounts =
      rw (no_fs, devmgr_try_mount)
        (devmgr_try_mount-AreRefused before after md s s' s'' others fs mounts)
