-- ===== src/Packets/Scalars/Version.antt =====
-- `Version` packs three numbers into 16 bits.
use ubass_rs.Base.{ℕ, ◌+◌, ◌*◌, ◌/◌, ◌%◌, ◌^◌, ◌<◌, ◌≡◌, refl, arith}
use Prim.Native.Nat.{bit_and}
use ubass_rs.Base.Bits.{bit_or_shifted, bit_and_ones}
use ubass_rs.Packets.Scalars.{version_new, version_parse}

version_new-sum :
    (major minor patch : ℕ)
    → major < 16
    → minor < 16
    → patch < 256
    → version_new major minor patch ≡ (major * 16 + minor) * 256 + patch
unfolding version_new
version_new-sum major minor patch h k l =
    rw
      (
        small,
        small_minor,
        bit_or_shifted 12 major (minor * 256) (omega arith),
        joined,
        bit_or_shifted 8 (major * 16 + minor) patch (omega arith),
      )
      refl
  where
    small : major * 4096 % 65536 ≡ major * 4096
    small = omega arith

    small_minor : minor * 256 % 65536 ≡ minor * 256
    small_minor = omega arith

    joined : major * 4096 + minor * 256 ≡ (major * 16 + minor) * 256
    joined = omega arith

-- `Version::parse` gives back the parts that `Version::new` packed, and the packed version fits 16
-- bits, for a major and a minor number below 16 and a patch below 256.
pub version_parse-new :
    (major minor patch : ℕ)
    → major < 16
    → minor < 16
    → patch < 256
    → (version_parse (version_new major minor patch) ≡ (major, minor, patch))
      × (version_new major minor patch < 2 ^ 16)
unfolding version_parse
version_parse-new major minor patch h k l =
    rw (version_new-sum major minor patch h k l) (rw (top, middle, low) refl, omega arith)
  where
    v : ℕ
    v = (major * 16 + minor) * 256 + patch

    top : v / 4096 % 256 ≡ major
    top = omega arith

    middle : bit_and (v / 256) 15 % 256 ≡ minor
    middle = omega (arith, bit_and_ones 4 (v / 256))

    low : bit_and v 255 % 256 ≡ patch
    low = omega (arith, bit_and_ones 8 v)
