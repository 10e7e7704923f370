-- ===== src/IoSc/Tests.antt =====
-- The controller with the FDC and the HDD interrupting.
use x68k_stackchan.Base.{ℕ, ◌<◌, ◌≡◌, ◌≢◌, ◌↔◌, inl, refl, true, arith, none, some}
use x68k_stackchan.IoSc.{
  IoSc, reset, set_source, set_fdc_line, device_fdc, pending_device, pending_from,
  has_pending_interrupt, acknowledge_interrupt,
}
use x68k_stackchan.IoSc.Devices.{set_fdc_line-eq-set_source}
use x68k_stackchan.IoSc.Pending.{
  IsPending, IsFirst, pending_device-IsFirst, acknowledge_interrupt-zero,
}

-- The HDD's line is up and enabled; the FDC's is up and not enabled.
abbrev disks : IoSc
disks = record { enable = 0x08; status = 0x90; vector = 0x60 }

disk_first : pending_device disks ≡ some 2
unfolding pending_device pending_from
disk_first = refl

disk_vector : acknowledge_interrupt disks ≡ 0x62
unfolding acknowledge_interrupt pending_device pending_from
disk_vector = refl

disks-IsPending : IsPending disks 2
disks-IsPending = (refl, refl)

disks_below : (e : ℕ) → e < 2 → ¬ IsPending disks e
disks_below e h p = ground arith

pending_device-IsFirst_example :
    IsFirst disks (pending_device disks)
    × ((has_pending_interrupt disks ≡ true) ↔ (pending_device disks ≢ none))
pending_device-IsFirst_example = pending_device-IsFirst disks

acknowledge_interrupt-zero_example : acknowledge_interrupt reset ≡ 0
acknowledge_interrupt-zero_example = acknowledge_interrupt-zero reset (inl refl)

set_fdc_line-eq-set_source_example : set_fdc_line true disks ≡ set_source device_fdc true disks
set_fdc_line-eq-set_source_example = set_fdc_line-eq-set_source true disks
