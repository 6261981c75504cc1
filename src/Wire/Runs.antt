-- ===== src/Wire/Runs.antt =====
-- The codecs at concrete inputs.
use lightway.Base.{◌≡◌, ◌≢◌, refl, true, false, [], ◌∷◌, ◌++◌, some, arith}
use lightway.Wire.Bytes.{big_endian}
use lightway.Wire.Buffer.{ok, panic, BorrowedBytesMut, chunk}
use lightway.Versions.{try_new}
use lightway.Wire.DataFrag
use lightway.Wire.DataFrag.{into_parts-from_parts}
use lightway.Wire.Frame.{Frame, ping, try_from_wire, append_to_wire}
use lightway.Wire.Frame.RoundTrip.{try_from_wire-append_to_wire}
use lightway.Wire.Frame.Safe.{TakesFrame, try_from_wire-TakesFrame}
use lightway.Wire.Header
use lightway.Wire.Header.{Header, header_round_trip, header_total}

abbrev hello : Frame
hello = ping (record { id = 7; payload = 1 ∷ 2 ∷ 3 ∷ [] })

try_from_wire-append_to_wire_example :
    (b : BorrowedBytesMut) × (try_from_wire (append_to_wire hello [] ++ (9 ∷ [])) ≡ ok hello b)
    × (b.bytes ≡ 9 ∷ [])
try_from_wire-append_to_wire_example =
    try_from_wire-append_to_wire hello (9 ∷ []) (omega arith, omega arith)

-- A ping that announces more payload than there is.
try_from_wire-TakesFrame_example :
    TakesFrame (2 ∷ 0 ∷ 7 ∷ 0 ∷ 9 ∷ 1 ∷ []) (try_from_wire (2 ∷ 0 ∷ 7 ∷ 0 ∷ 9 ∷ 1 ∷ []))
try_from_wire-TakesFrame_example = try_from_wire-TakesFrame (2 ∷ 0 ∷ 7 ∷ 0 ∷ 9 ∷ 1 ∷ [])

into_parts-from_parts_example : DataFrag.into_parts (DataFrag.from_parts 1480 true) ≡ (1480, true)
into_parts-from_parts_example = into_parts-from_parts 1480 true (omega arith) refl

abbrev first_header : Header
first_header = record {
  version = record { major = 1; minor = 3 };
  aggressive_mode = true;
  expresslane_data = false;
  session = 1 ∷ 2 ∷ 3 ∷ 4 ∷ 5 ∷ 6 ∷ 7 ∷ 8 ∷ [];
}

first_known : try_new 1 3 ≡ some first_header.version
unfolding try_new
first_known = refl

header_round_trip_example :
    (b : BorrowedBytesMut) × (Header.try_from_wire
        (Header.append_to_wire first_header [] ++ (9 ∷ []))
      ≡ ok first_header b)
    × (chunk b ≡ 9 ∷ [])
header_round_trip_example = header_round_trip first_header (9 ∷ []) (first_known, refl)

header_total_example : Header.try_from_wire (0x48 ∷ 0x65 ∷ []) ≢ panic
header_total_example = header_total (0x48 ∷ 0x65 ∷ [])
