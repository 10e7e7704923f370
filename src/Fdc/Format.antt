-- ===== src/Fdc/Format.antt =====
-- src/x68k/core/dev/fdc.cpp, floppyGeometryFromSize and detectFloppyFormat.
use x68k_stackchan.Base.{
  ℕ, ◌-◌, ◌*◌, ltb, ◌==◌, if◌then◌else◌, Option, some, none, List, [], ◌∷◌, u32,
}
use x68k_stackchan.Fdc.{FloppyGeometry}

pub data FloppyFormat : Type 0 where
  unknown : FloppyFormat
  xdf : FloppyFormat
  dim : FloppyFormat

abbrev pub dim_header_bytes : ℕ
dim_header_bytes = 256

abbrev pub total_bytes : FloppyGeometry → ℕ
total_bytes g = u32 (g.cylinders * g.heads * g.sectors_per_track * g.sector_size)

abbrev pub geometry_of : ℕ → ℕ → ℕ → ℕ → FloppyGeometry
geometry_of c h s b = record { cylinders = c; heads = h; sectors_per_track = s; sector_size = b }

abbrev pub known_geometries : List FloppyGeometry
known_geometries =
    geometry_of 77 2 8 1024
    ∷ geometry_of 77 2 26 256
    ∷ geometry_of 80 2 8 512
    ∷ geometry_of 80 2 9 512
    ∷ geometry_of 40 2 8 512
    ∷ []

-- The loop over the table.
abbrev pub find_size : ℕ → List FloppyGeometry → Option FloppyGeometry
find_size bytes [] = none
find_size bytes (g ∷ gs) =
    let rest = find_size bytes gs in if total_bytes g == bytes then some g else rest

unfoldable pub floppy_geometry_from_size : ℕ → Option FloppyGeometry
floppy_geometry_from_size bytes = find_size bytes known_geometries

-- The format, with the offset of the sectors and the geometry where it is known.
abbrev pub detect_dim : Option FloppyGeometry → FloppyFormat × Option (ℕ × FloppyGeometry)
detect_dim none = (unknown, none)
detect_dim (some g) = (dim, some (dim_header_bytes, g))

abbrev pub detect_xdf : ℕ → Option FloppyGeometry → FloppyFormat × Option (ℕ × FloppyGeometry)
detect_xdf bytes (some g) = (xdf, some (0, g))
detect_xdf bytes none =
    if ltb dim_header_bytes bytes
    then detect_dim (floppy_geometry_from_size (bytes - dim_header_bytes))
    else (unknown, none)

unfoldable pub detect_floppy_format : ℕ → FloppyFormat × Option (ℕ × FloppyGeometry)
detect_floppy_format bytes = detect_xdf bytes (floppy_geometry_from_size bytes)
