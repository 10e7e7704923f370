-- ===== src/Fdc/Inv/Run.antt =====
-- Any calls of the floppy controller, by the processor, the DMA controller and the host.
use x68k_stackchan.Base.{ℕ, Bool, Option, List, [], ◌∷◌}
use x68k_stackchan.Fdc.{Disks, reset, set_image, write_drive_control, write_drive_select}
use x68k_stackchan.Fdc.Transfer.{World, with_fdc, dma_read, dma_write, dma_complete}
use x68k_stackchan.Fdc.Command.{read_data, write_data}
use x68k_stackchan.Fdc.Inv.{
  IsValid, reset-IsValid, set_image-IsValid, write_drive_control-IsValid,
  write_drive_select-IsValid,
}
use x68k_stackchan.Fdc.Inv.Transfer.{dma_read-IsValid, dma_complete-IsValid}
use x68k_stackchan.Fdc.Inv.Write.{dma_write-IsValid}
use x68k_stackchan.Fdc.Inv.Ports.{read_data-IsValid, write_data-IsValid}

pub data Call : Type 0 where
  resets : Call
  inserts : ℕ → Option ℕ → Call
  reads : Call
  writes : ℕ → Call
  controls : ℕ → Call
  selects : ℕ → Call
  gives : Call
  takes : ℕ → Call
  completes : Bool → Call

module _ (disks : Disks) where
  abbrev pub step : Call → World disks → World disks
  step resets w = with_fdc disks (reset w.fdc) w
  step (inserts drive image) w = with_fdc disks (set_image drive image w.fdc) w
  step reads w = (read_data disks w).1
  step (writes value) w = write_data disks value w
  step (controls value) w = with_fdc disks (write_drive_control value w.fdc) w
  step (selects value) w = with_fdc disks (write_drive_select value w.fdc) w
  step gives w = (dma_read disks w).2
  step (takes value) w = (dma_write disks value w).1
  step (completes complete) w = dma_complete disks complete w

  abbrev pub serve : List Call → World disks → World disks
  serve [] w = w
  serve (c ∷ cs) w = serve cs (step c w)

  step-IsValid : (c : Call) (w : World disks) → IsValid w.fdc → IsValid (step c w).fdc
  step-IsValid resets w v = reset-IsValid w.fdc
  step-IsValid (inserts drive image) w v = set_image-IsValid drive image w.fdc v
  step-IsValid reads w v = read_data-IsValid disks w v
  step-IsValid (writes value) w v = write_data-IsValid disks value w v
  step-IsValid (controls value) w v = write_drive_control-IsValid value w.fdc v
  step-IsValid (selects value) w v = write_drive_select-IsValid value w.fdc v
  step-IsValid gives w v = dma_read-IsValid disks w v
  step-IsValid (takes value) w v = dma_write-IsValid disks value w v
  step-IsValid (completes complete) w v = dma_complete-IsValid disks complete w v

  serve_from : (cs : List Call) (w : World disks) → IsValid w.fdc → IsValid (serve cs w).fdc
  serve_from [] w v = v
  serve_from (c ∷ cs) w v = serve_from cs (step c w) (step-IsValid c w v)

  -- From a state that a reset leaves, any sequence of accesses by the processor, of bytes from and to
  -- the DMA controller, of ends of a transfer, of resets and of changes of the media keeps the
  -- controller valid: its drive is one of four; a command is at most 9 bytes, and less than a whole one
  -- waits; in execution the place is within a sector of 1 to 1024 bytes, with room for a byte when
  -- writing; and the phase of results has a byte to read.
  pub serve-IsValid :
      (cs : List Call) (w : World disks) → IsValid (serve cs (with_fdc disks (reset w.fdc) w)).fdc
  serve-IsValid cs w = serve_from cs (with_fdc disks (reset w.fdc) w) (reset-IsValid w.fdc)
