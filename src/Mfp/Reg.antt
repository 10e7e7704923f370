-- ===== src/Mfp/Reg.antt =====
-- src/x68k/core/dev/mfp.h: `Mfp::Reg`, the numbers of the registers.
use Prim.Native.Nat.{ℕ}

abbrev pub gpip : ℕ
gpip = 0x00

abbrev pub aer : ℕ
aer = 0x01

abbrev pub iera : ℕ
iera = 0x03

abbrev pub ierb : ℕ
ierb = 0x04

abbrev pub ipra : ℕ
ipra = 0x05

abbrev pub iprb : ℕ
iprb = 0x06

abbrev pub isra : ℕ
isra = 0x07

abbrev pub isrb : ℕ
isrb = 0x08

abbrev pub imra : ℕ
imra = 0x09

abbrev pub imrb : ℕ
imrb = 0x0A

abbrev pub vr : ℕ
vr = 0x0B

abbrev pub tacr : ℕ
tacr = 0x0C

abbrev pub tbcr : ℕ
tbcr = 0x0D

abbrev pub tcdcr : ℕ
tcdcr = 0x0E

abbrev pub tadr : ℕ
tadr = 0x0F

abbrev pub tbdr : ℕ
tbdr = 0x10

abbrev pub tcdr : ℕ
tcdr = 0x11

abbrev pub tddr : ℕ
tddr = 0x12

abbrev pub rsr : ℕ
rsr = 0x15

abbrev pub tsr : ℕ
tsr = 0x16

abbrev pub udr : ℕ
udr = 0x17

abbrev pub count : ℕ
count = 0x18
