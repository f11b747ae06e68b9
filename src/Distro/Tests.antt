-- ===== src/Distro/Tests.antt =====
-- Distribution identifiers as texts.
use image_builder.Prelude.{◌≡◌, refl, arith, inr}
use image_builder.Prelude.Result.{ok, err}
use image_builder.Text.Decimal.{pos}
use image_builder.Distro.{
  DistroId, no_dash, too_many_dots, parsing_major_failed, id_string, parse_id,
}
use image_builder.Distro.RoundTrip.{parse_id-id_string}

abbrev rhel_9_4 : DistroId
rhel_9_4 = record { name = "rhel"; major_version = pos 9; minor_version = pos 4 }

rhel_9_4-id_string : id_string rhel_9_4 ≡ "rhel-9.4"
unfolding id_string
rhel_9_4-id_string = refl

without_dash : parse_id "fedora" ≡ err no_dash
unfolding parse_id
without_dash = refl

with_two_dots : parse_id "rhel-9.4.1" ≡ err too_many_dots
unfolding parse_id
with_two_dots = refl

without_number : parse_id "centos-stream" ≡ err parsing_major_failed
unfolding parse_id
without_number = refl

parse_id-id_string_example : parse_id (id_string rhel_9_4) ≡ ok rhel_9_4
parse_id-id_string_example =
    parse_id-id_string rhel_9_4 9
      (record { is_major = refl; major_fits = omega arith; minor = inr (4, refl, omega arith) })
