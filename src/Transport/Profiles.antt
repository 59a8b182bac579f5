-- ===== src/Transport/Profiles.antt =====
-- plank_encoding_profiles.h: the catalog of encodings. An `int` is ℤ, and a null pointer is `none`.
pub mod Lookup
use plank.Common.{
  ℕ, zero, suc, ◌+◌, ◌-◌, ◌*◌, ◌%◌, ◌^◌, Bool, true, false, not, ◌||◌, ◌&&◌, ltb, leb, ◌==◌, ◌!=◌,
  if◌then◌else◌, Option, none, some, List, [], ◌∷◌, bit_and,
}
use Prim.Native.String.{String, len, slice, compare}
use Prim.Native.Nat.{Ordering}

pub data ℤ : Type 0 where
  pos : ℕ → ℤ
  negsuc : ℕ → ℤ

pub data Encoder : Type 0 where
  x264 nvenc apple : Encoder

-- PlankEncodingProfile
pub record Profile : Type 0 where
  pub id : ℕ
  pub mode : String
  pub backend : String
  pub codec : String
  pub profile : String
  pub chroma : String
  pub matrix : String
  pub encoder : Encoder
  pub bit_depth : ℕ
  pub video_format : ℕ
  pub capture_mask : ℕ
  pub rgb_identity : ℕ
  pub width_limit : ℕ
  pub height_limit : ℕ
  pub alignment : ℕ
  pub default_bitrate_kbps : ℕ

abbrev pub catalog : List Profile
catalog =
    record {
      id = 0;
      mode = "h264-10-444-software";
      backend = "software-cuda";
      codec = "h264";
      profile = "high444";
      chroma = "4:4:4";
      matrix = "identity";
      encoder = x264;
      bit_depth = 10;
      video_format = 0x0008;
      capture_mask = 3;
      rgb_identity = 1;
      width_limit = 0;
      height_limit = 0;
      alignment = 1;
      default_bitrate_kbps = 80000;
    }
    ∷ record {
      id = 1;
      mode = "h264-8-422-software";
      backend = "software-cuda";
      codec = "h264";
      profile = "high422";
      chroma = "4:2:2";
      matrix = "bt709";
      encoder = x264;
      bit_depth = 8;
      video_format = 0x0002;
      capture_mask = 1;
      rgb_identity = 0;
      width_limit = 0;
      height_limit = 0;
      alignment = 1;
      default_bitrate_kbps = 80000;
    }
    ∷ record {
      id = 2;
      mode = "h264-8-444-software";
      backend = "software-cuda";
      codec = "h264";
      profile = "high444";
      chroma = "4:4:4";
      matrix = "identity";
      encoder = x264;
      bit_depth = 8;
      video_format = 0x0004;
      capture_mask = 1;
      rgb_identity = 1;
      width_limit = 0;
      height_limit = 0;
      alignment = 1;
      default_bitrate_kbps = 80000;
    }
    ∷ record {
      id = 3;
      mode = "h264-10-422-software";
      backend = "software-cuda";
      codec = "h264";
      profile = "high422";
      chroma = "4:2:2";
      matrix = "bt709";
      encoder = x264;
      bit_depth = 10;
      video_format = 0x0010;
      capture_mask = 1;
      rgb_identity = 0;
      width_limit = 0;
      height_limit = 0;
      alignment = 1;
      default_bitrate_kbps = 80000;
    }
    ∷ record {
      id = 4;
      mode = "h264-8-444-nvenc";
      backend = "nvenc-direct";
      codec = "h264";
      profile = "high444";
      chroma = "4:4:4";
      matrix = "identity";
      encoder = nvenc;
      bit_depth = 8;
      video_format = 0x0004;
      capture_mask = 1;
      rgb_identity = 1;
      width_limit = 4096;
      height_limit = 2160;
      alignment = 1;
      default_bitrate_kbps = 80000;
    }
    ∷ record {
      id = 5;
      mode = "hevc-8-444-nvenc";
      backend = "nvenc-direct";
      codec = "hevc";
      profile = "rext";
      chroma = "4:4:4";
      matrix = "identity";
      encoder = nvenc;
      bit_depth = 8;
      video_format = 0x0400;
      capture_mask = 1;
      rgb_identity = 1;
      width_limit = 0;
      height_limit = 0;
      alignment = 1;
      default_bitrate_kbps = 50000;
    }
    ∷ record {
      id = 6;
      mode = "hevc-10-444-nvenc";
      backend = "nvenc-direct";
      codec = "hevc";
      profile = "rext";
      chroma = "4:4:4";
      matrix = "identity";
      encoder = nvenc;
      bit_depth = 10;
      video_format = 0x0800;
      capture_mask = 3;
      rgb_identity = 1;
      width_limit = 0;
      height_limit = 0;
      alignment = 1;
      default_bitrate_kbps = 50000;
    }
    ∷ record {
      id = 7;
      mode = "hevc-10-420-videotoolbox";
      backend = "videotoolbox";
      codec = "hevc";
      profile = "main10";
      chroma = "4:2:0";
      matrix = "bt709";
      encoder = apple;
      bit_depth = 10;
      video_format = 0x0200;
      capture_mask = 4;
      rgb_identity = 0;
      width_limit = 5120;
      height_limit = 2160;
      alignment = 2;
      default_bitrate_kbps = 50000;
    }
    ∷ record {
      id = 8;
      mode = "hevc-10-444-videotoolbox";
      backend = "videotoolbox";
      codec = "hevc";
      profile = "rext";
      chroma = "4:4:4";
      matrix = "bt709";
      encoder = apple;
      bit_depth = 10;
      video_format = 0x0800;
      capture_mask = 4;
      rgb_identity = 0;
      width_limit = 5120;
      height_limit = 2160;
      alignment = 2;
      default_bitrate_kbps = 50000;
    }
    ∷ []
