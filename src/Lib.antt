-- ===== src/Lib.antt =====
-- A verification library for the X68000 emulator of this repository.
--
-- The program runs a 68000 and the devices of the machine on two cores of a microcontroller. One core
-- emulates: `Machine` (src/x68k/core/machine.cpp) runs instructions and counts their cycles in
-- `Scheduler` (src/x68k/core/scheduler.h), which lets the devices fall behind the CPU until a
-- deadline, the next moment at which a device can raise an interrupt; then `settle` hands them the
-- cycles they have missed. The MFP (src/x68k/core/dev/mfp.{h,cpp}) announces such a deadline for its
-- timers and ranks the interrupts, the IOSC (src/x68k/core/dev/iosc.{h,cpp}) collects those of the
-- disks, the DMA controller (src/x68k/core/dev/dmac.{h,cpp}) moves their data, the clock chip
-- (src/x68k/core/dev/rtc.{h,cpp}) counts the seconds, and the arithmetic instructions get their
-- results and flags from src/x68k/core/cpu/m68k_alu.h. The other core shows the frames, which it gets
-- from the first one through `FrameChannel` (src/x68k/platform/frame_channel.{h,cpp}), and takes the
-- input: keys go through `KeyQueue` to the MFP, the mouse through `MouseQueue` (both in
-- src/x68k/platform/key_queue.{h,cpp}) to the SCC (src/x68k/core/dev/scc.{h,cpp}), from which the ROM
-- reads them byte by byte. `TileGenerations` (src/x68k/core/video/tile_generations.h) says which parts
-- of a frame's buffer are out of date, `NegativeCache` (src/x68k/platform/jit/negative_cache.h) at which
-- addresses no native code can be made, and `Sram` (src/x68k/core/dev/sram.{h,cpp}) is the memory that
-- is saved. The floppy controller (src/x68k/core/dev/fdc.{h,cpp}) is the device of a channel of the DMA
-- controller, `Adpcm` (src/x68k/core/dev/adpcm.{h,cpp}) decodes the samples that the processor writes,
-- and src/x68k/core/dev/video.{h,cpp} has the clock of the frames and the registers of the colours.
--
-- Base          shared names, Boolean tests, machine words, bit operations, integers
-- Scheduler     the clock: its members as a record, one function for each method; `settle` and
--               `materialize` of the machine, with the devices' tick as a parameter
--   Inv, Ops, Settle    the invariant, the operations one by one, the two loops
-- Machine       runEventDriven, reachSlow, skipStopped over a record `Board` of what the loop calls
--   Slice, Skip, Halt, Run
--                       the clock within a slice, the jump of a stopped CPU, a halt, the loop
-- Alu           add, sub, BCD, division
--   AddSub, Bcd, Divide, DivideSigned
-- FrameChannel  the channel; a call runs under the mutex and is one step
--   Scan, Inv, Order    the scans of the slots, the invariant, the calls in any order
-- IoSc          the interrupt controller of the disks
--   Devices, Pending    its registers, what it delivers
-- Mfp           registers and the table of running timers
--   Reg, Tick, Interrupt        register numbers, the timers' clock, the interrupts
--   FastPath, Counter           the shortcut of the clock, the prescale counter
--   Running, Short, Deadline    the table, a timer short of its timeout, the deadline
--   Channels, Eligible, Priority, Pending    the registers as words of 16 channels, which channel
--                               may interrupt, the one that is taken, whether there is one
-- Rtc           the calendar and the registers of its digits
--   Calendar, Carry, Registers  dates as numbers of seconds, the tick, reads and writes
-- Dmac          registers and transfers over a record `Wiring` of the devices, memory and monitor
--   Loop, Cut, Transfer, Stream the loops, where they stop, how a transfer ends, what it stores
-- KeyQueue      the queue of typed keys over a record `EventQueue`, FreeRTOS's queue
--   Order, Progress             what is sent against what was typed, and when
-- MouseQueue    the motion summed up, and `drain`
--   World, Motion, Delivery     the two cores' steps, the motion, the buttons and one `drain`
-- Scc           the serial controller, one function for each method
--   Inv, Fifo, Stream, Report   the invariant, the FIFO as a list, the bytes of channel B over any
--                               calls, a report on its way to the ROM's handler
-- Sram          the memory and its mark `dirty`
--   Factory, Saved              what a format makes, the mark against what is saved or can be had again
-- TileGenerations    the generations of the tiles, over the number of values of their type
--   Marks, Damage               the tiles of a rectangle, a damaged pixel and the buffers
-- NegativeCache      the table, as a function of the place
--   Newest                      the table against the history of the calls
-- Fdc           the floppy controller over a record `Disks` of the images
--   Format, Transfer, Command   sizes of images, the transfer of sectors, commands and results
--   Inv                         the invariant: Inv/Begin, Transfer, Write for the transfer of sectors,
--                               Inv/Command, Ports for the processor, Inv/Run for any calls
--   Begin, Overrun, Detect      how a transfer begins, a write outside an array, the formats
--   Sectors, Reading, Writing   the order of the sectors, the bytes read and the bytes written
--   Dma                         the controller on a channel of Dmac
-- Adpcm         the decoder with its FIFO
--   Decoder, Rate               the signal and the step, the resampling
--   Ring, Fifo                  a ring as a list, the nibbles that wait
-- Video         the CRTC and the video controller
--   Edge, Registers             the vertical blanking, reads and writes
--   Fields, Colour              the fields and the graphic pages, the conversion of colours
-- Each component's Tests has runs on concrete states.
--
-- Numbers are natural numbers with the wrap-around written out; `debt`, an `int32_t`, is its bit
-- pattern. A loop of the code is a recursion on its remaining work or on fuel: `settle_loop` takes the
-- pending cycles (a piece is at least one), `tick_timer_counted` the counter (it drops by the
-- prescale), `run_loop` and `skip_stopped` one more than the cycles of the slice (a turn takes at
-- least one), `carry_loop` of the clock chip the accumulator (a second is at least one cycle) and the
-- loops of the DMA controller the bytes to transfer. The times of the clock are bounded: 2 ^ 62 cycles
-- are more than 10000 years of the 10 MHz machine, a slice has at most 2 ^ 28 cycles.
--
-- Not modelled: the interpreter and the native code generator, which the event loop has as one
-- parameter `execute` with the hypotheses `Lawful`; the counters that `Machine` keeps as statistics;
-- the other devices (OPM, sprites, SASI, PPI), the rendering, the drivers and the host programs. The
-- mutex of the frame channel is taken to exclude the other core; whether it can be created is a
-- parameter of `begin`. A sum of the mouse's motion is an integer, since the source's `int` has no meaning beyond its range. The time
-- stamps of the DMA controller's monitor are left out. The images of the floppy controller are a
-- parameter; where the code writes outside the array of the cylinders, or an image reads a sector that
-- is longer than the buffer, the model sets the flag `overrun` and goes on, since the source gives no
-- meaning to what follows.
pub mod Base
pub mod Scheduler
pub mod Machine
pub mod Alu
pub mod FrameChannel
pub mod IoSc
pub mod Mfp
pub mod Rtc
pub mod Dmac
pub mod KeyQueue
pub mod MouseQueue
pub mod Scc
pub mod Sram
pub mod TileGenerations
pub mod NegativeCache
pub mod Fdc
pub mod Adpcm
pub mod Video
