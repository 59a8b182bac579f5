-- ===== src/Probes/Native10/Tests.antt =====
-- The codes of a pixel, and the theorems at concrete frames.
use plank.Common.{◌+◌, ◌*◌, ◌≡◌, refl, arith}
use plank.Probes.Native10.{
  Channels, Planes, make_channel, trailing_zeroes, count_zeroes, bit_count, count_bits, pack_code,
  unpack_code, unpack_parallel, unpack_single,
}
use plank.Probes.Native10.Rows.{unpack_parallel_lem}

green_channel : make_channel 0xffc00 ≡ record { mask = 0xffc00; shift = 10; bits = 10 }
unfolding make_channel trailing_zeroes count_zeroes bit_count count_bits
green_channel = refl

green_code : unpack_code (make_channel 0xffc00) (pack_code (make_channel 0xffc00) 700) ≡ 700
unfolding make_channel trailing_zeroes count_zeroes bit_count count_bits unpack_code pack_code
green_code = refl

abbrev channels : Channels
channels = record {
  red = record { mask = 0x3ff00000; shift = 20; bits = 10 };
  green = record { mask = 0xffc00; shift = 10; bits = 10 };
  blue = record { mask = 0x3ff; shift = 0; bits = 10 };
}

abbrev blank : Planes
blank = record { green = λ k. 0; blue = λ k. 0; red = λ k. 0 }

unpack_parallel_lem_example :
    unpack_parallel channels (λ y x. y * 1000 + x) 16 9 4 blank
    ≡ unpack_single channels (λ y x. y * 1000 + x) 16 9 blank
unpack_parallel_lem_example =
    unpack_parallel_lem channels (λ y x. y * 1000 + x) 16 9 4 blank (omega arith)
