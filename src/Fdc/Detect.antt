-- ===== src/Fdc/Detect.antt =====
-- What the size of a floppy image says of it.
use x68k_stackchan.Base.{
  ℕ, ◌+◌, ◌-◌, ◌<◌, ◌≤◌, ◌≡◌, ◌≢◌, inl, inr, refl, sym, arith, false, Bool-cases, ltb, ltb→lt,
  ltb-false, ◌==◌, ==_iff, Option, some, none, List, [], ◌∷◌, All,
}
use mathlib.Core.List.{Mem, mem-cons_of_mem, mem-cons_self}
use x68k_stackchan.Fdc.{FloppyGeometry}
use x68k_stackchan.Fdc.Format.{
  FloppyFormat, unknown, xdf, dim, dim_header_bytes, total_bytes, known_geometries, find_size,
  floppy_geometry_from_size, detect_dim, detect_xdf, detect_floppy_format,
}

-- What a search by size finds.
abbrev Found : ℕ → List FloppyGeometry → Option FloppyGeometry → Type 0
Found bytes gs none = All (λ g. bytes ≢ total_bytes g) gs
Found bytes gs (some g) = Mem g gs × (bytes ≡ total_bytes g)

later :
    (bytes : ℕ) (g : FloppyGeometry) (gs : List FloppyGeometry)
    → (total_bytes g == bytes) ≡ false
    → (o : Option FloppyGeometry) → Found bytes gs o
    → Found bytes (g ∷ gs) o
later bytes g gs e none f = (ground (arith, e), f)
later bytes g gs e (some h) (m, q) = (mem-cons_of_mem g m, q)

find_size-Found : (bytes : ℕ) (gs : List FloppyGeometry) → Found bytes gs (find_size bytes gs)
find_size-Found bytes [] = tt
find_size-Found bytes (g ∷ gs) = elim (Bool-cases (total_bytes g == bytes)) [
  | inl e ↦ rw e (mem-cons_self, sym ((==_iff (total_bytes g) bytes).0 e))
  | inr e ↦ rw e (later bytes g gs e (find_size bytes gs) (find_size-Found bytes gs))
]

-- What a format and its layout say of a size: a plain image is as long as one of the known disks, one
-- with a header is 256 bytes longer, and any other size is neither.
abbrev pub IsOf : ℕ → FloppyFormat × Option (ℕ × FloppyGeometry) → Type 0
IsOf bytes (unknown, layout) =
    (layout ≡ none)
    × All (λ g. (bytes ≢ total_bytes g) × (bytes ≢ dim_header_bytes + total_bytes g))
        known_geometries
IsOf bytes (xdf, layout) =
    (g : FloppyGeometry) × Mem g known_geometries × (bytes ≡ total_bytes g) × (layout ≡ some (0, g))
IsOf bytes (dim, layout) =
    (g : FloppyGeometry) × Mem g known_geometries
    × (bytes ≡ dim_header_bytes + total_bytes g)
    × (layout ≡ some (dim_header_bytes, g))

neither :
    (bytes : ℕ) (gs : List FloppyGeometry)
    → dim_header_bytes < bytes
    → All (λ g. bytes ≢ total_bytes g) gs
    → All (λ g. bytes - dim_header_bytes ≢ total_bytes g) gs
    → All (λ g. (bytes ≢ total_bytes g) × (bytes ≢ dim_header_bytes + total_bytes g)) gs
neither bytes [] l a b = tt
neither bytes (g ∷ gs) l a b = ((a.0, λ e. b.0 (omega (arith, e))), neither bytes gs l a.1 b.1)

detect_dim-IsOf :
    (bytes : ℕ) (o : Option FloppyGeometry)
    → dim_header_bytes < bytes
    → All (λ g. bytes ≢ total_bytes g) known_geometries
    → Found (bytes - dim_header_bytes) known_geometries o
    → IsOf bytes (detect_dim o)
detect_dim-IsOf bytes none l a f = (refl, neither bytes known_geometries l a f)
detect_dim-IsOf bytes (some g) l a (m, e) = (g, m, omega (arith, e, l), refl)

-- An image that is no longer than a header is shorter than any disk.
short :
    (bytes : ℕ)
    → bytes ≤ dim_header_bytes
    → All (λ g. bytes ≢ total_bytes g) known_geometries
    → All
        (λ g. (bytes ≢ total_bytes g) × (bytes ≢ dim_header_bytes + total_bytes g))
        known_geometries
short bytes l f = ground (arith, l)

detect_xdf-IsOf :
    (bytes : ℕ) (o : Option FloppyGeometry)
    → Found bytes known_geometries o
    → IsOf bytes (detect_xdf bytes o)
unfolding floppy_geometry_from_size
detect_xdf-IsOf bytes (some g) (m, e) = (g, m, e, refl)
detect_xdf-IsOf bytes none f = elim (Bool-cases (ltb dim_header_bytes bytes)) [
  | inl e ↦ rw e (
      detect_dim-IsOf bytes (floppy_geometry_from_size (bytes - dim_header_bytes)) (ltb→lt _ _ e) f
        (find_size-Found (bytes - dim_header_bytes) known_geometries))
  | inr e ↦ rw e (refl, short bytes (ltb-false _ _ e) f)
]

-- For any size of an image file, `detect_floppy_format` takes it for a plain image with the sectors at
-- 0 and the geometry of a known disk of this size, or else for an image with a header, with the sectors
-- at 256 and the geometry of a known disk 256 bytes smaller; it knows no format exactly where no known
-- disk has either size.
pub detect_floppy_format-IsOf : (bytes : ℕ) → IsOf bytes (detect_floppy_format bytes)
unfolding detect_floppy_format floppy_geometry_from_size
detect_floppy_format-IsOf bytes =
    detect_xdf-IsOf bytes (floppy_geometry_from_size bytes) (find_size-Found bytes known_geometries)
