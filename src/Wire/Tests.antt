-- ===== src/Wire/Tests.antt =====
-- Sessions, accepted and refused, and the theorems on ParseHeader of wire.go at concrete inputs.
use dc_1_pmos.Base.{◌≡◌, ◌≢◌, refl, bytes_equal, Bytes, some, false, codes, ok, err, arith}
use dc_1_pmos.Std.Strings.{read_line, trim_right, cut}
use dc_1_pmos.Std.Strconv.{pos, parse_int}
use dc_1_pmos.Wire.{
  Header, bad_magic, no_line, malformed, unknown_key, missing_size, stuck, accept_field,
  accept_line, read_fields, finish, parse_header,
}
use dc_1_pmos.Wire.Valid.{IsValid, parse_header-IsValid}
use dc_1_pmos.Wire.Body.{IsCut, parse_header-IsCut, parse_header-ne-stuck}
use dc_1_pmos.Wire.RoundTrip.{session, parse_header-session}

abbrev sha : Bytes
sha = codes "0123456789abcdef0123456789abcdef0123456789abcdef0123456789abcdef"

abbrev body : Bytes
body = codes "\nIMAGE"

abbrev header : Header
header = record {
  size = pos 16777216;
  sha256 = sha;
  answers = codes "DC1_USER=a\n";
  unprovisioned = false;
}

parse_header-session_example :
    parse_header (session 16777216 sha (some (codes "DC1_USER=a\n")) body) ≡ ok (header, body)
parse_header-session_example =
    parse_header-session 16777216 sha (some (codes "DC1_USER=a\n")) body (omega arith) (omega arith)
      (refl, ground arith) (ground arith, λ e. cc)

parse_header-IsValid_example : IsValid header
parse_header-IsValid_example =
    parse_header-IsValid (session 16777216 sha (some (codes "DC1_USER=a\n")) body)
      parse_header-session_example

parse_header-IsCut_example : IsCut (session 16777216 sha (some (codes "DC1_USER=a\n")) body) body
parse_header-IsCut_example =
    parse_header-IsCut (session 16777216 sha (some (codes "DC1_USER=a\n")) body)
      parse_header-session_example

parse_header-ne-stuck_example : parse_header (codes "DC1-INSTALL-V1\nsize=1\n") ≢ err stuck
parse_header-ne-stuck_example = parse_header-ne-stuck (codes "DC1-INSTALL-V1\nsize=1\n")

refused :
    (parse_header (codes "DC1-INSTALL-V2\n\n") ≡ err bad_magic)
    × (parse_header (codes "DC1-INSTALL-V1\nsize=1\n") ≡ err no_line)
    × (parse_header (codes "DC1-INSTALL-V1\r\nsize\r\n\r\n") ≡ err malformed)
    × (parse_header (codes "DC1-INSTALL-V1\nbogus=1\n\n") ≡ err unknown_key)
    × (parse_header (codes "DC1-INSTALL-V1\n\n") ≡ err missing_size)
unfolding parse_header read_fields accept_line accept_field finish read_line trim_right cut
    parse_int bytes_equal
refused = (refl, refl, refl, refl, refl)
