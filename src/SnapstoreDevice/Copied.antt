-- ===== src/SnapstoreDevice/Copied.antt =====
-- The device after the copy of the blocks.
use veeamsnap.Prelude.{
  ◌≡◌, ◌⊎◌, refl, inl, inr, true, false, Option, none, some, Status, is_success, Bool-cases, Memory,
}
use veeamsnap.SnapstoreDevice.{Device, CopyRequest, Prep, copy_blocks, is_corrupted}
use veeamsnap.SnapstoreDevice.Prepare.{set_corrupted_lem}

-- After a preparation that succeeded, the copy succeeds, or the read fails, or the device is corrupted.
pub copy_blocks-ends :
    (read_res store_res : Status) (res : Status) (p : Prep)
    → p.dev.corrupted ≡ false
    → is_success res ≡ true
    → let r = copy_blocks read_res store_res (res, p) in
      (is_success r.0 ≡ true) ⊎ ((is_success read_res ≡ false) ⊎ (r.1.corrupted ≡ true))
unfolding copy_blocks
copy_blocks-ends read_res store_res res p sound ok =
    ends read_res store_res res p.dev p.dio_copy_req p.mem sound ok
  where
    ends :
        (read_res store_res res : Status) (dev : Device) (req : Option CopyRequest) (mem : Memory)
        → dev.corrupted ≡ false
        → is_success res ≡ true
        → let r =
            copy_blocks read_res store_res
              (res, record { dev = dev; dio_copy_req = req; mem = mem }) in
          (is_success r.0 ≡ true) ⊎ ((is_success read_res ≡ false) ⊎ (r.1.corrupted ≡ true))
    ends read_res store_res res dev none mem sound ok = inl (rw ok refl)
    ends read_res store_res res dev (some req) mem sound ok =
        elim (Bool-cases (is_success read_res)) [
          | inr unread ↦ inr (inl unread)
          | inl done ↦ elim (Bool-cases (is_success store_res)) [
            | inl stored ↦ inl (rw (ok, done, stored) refl)
            | inr unstored ↦
                inr (inr (rw (ok, done, unstored) (set_corrupted_lem dev store_res sound).1))
          ]
        ]

-- A failed preparation leaves the device as the preparation did.
pub copy_blocks-unprepared :
    (read_res store_res : Status) (res : Status) (p : Prep)
    → is_success res ≡ false
    → (copy_blocks read_res store_res (res, p)).1 ≡ p.dev
unfolding copy_blocks
copy_blocks-unprepared read_res store_res res p bad = rw bad refl

-- Asking a device that is not corrupted.
pub not_corrupted : (dev : Device) → dev.corrupted ≡ false → is_corrupted dev ≡ (false, dev)
unfolding is_corrupted
not_corrupted dev sound = rw sound refl
