-- ===== src/Tests/Qr.antt =====
-- The QR code at concrete inputs.
use vpp_wl_mobile.Prelude.{ℕ, ◌≡◌, refl, true, false, some, List, [], ◌∷◌, ◌++◌, arith}
use vpp_wl_mobile.Qr.Field.{gf_pow, reed_solomon_remainder}
use vpp_wl_mobile.Qr.Field.Evaluation.{evaluate_at}
use vpp_wl_mobile.Qr.Field.Division.{reed_solomon_remainder-IsCodeword}
use vpp_wl_mobile.Qr.Codewords.RoundTrip.{read_message}
use vpp_wl_mobile.Qr.Matrix.{cell, draw_patterns, empty_matrix}
use vpp_wl_mobile.Qr.Svg.{data_symbol}
use vpp_wl_mobile.Qr.Svg.Readable.{read_symbol, read_message-data_symbol}

abbrev hello : List ℕ
hello = 104 ∷ 101 ∷ 108 ∷ 108 ∷ 111 ∷ []

-- The module (30, 8), which holds a format bit, is not reserved; (28, 8), which holds none, is.
format_gap : cell 30 8 (draw_patterns empty_matrix).reserved ≡ false
unfolding cell draw_patterns empty_matrix
format_gap = refl

format_gap_beside : cell 28 8 (draw_patterns empty_matrix).reserved ≡ true
unfolding cell draw_patterns empty_matrix
format_gap_beside = refl

-- A corner of the first finder pattern is reserved.
reed_solomon_remainder-IsCodeword_example :
    evaluate_at (gf_pow 2 25) 0 (hello ++ reed_solomon_remainder hello 26) ≡ 0
reed_solomon_remainder-IsCodeword_example =
    reed_solomon_remainder-IsCodeword hello 25 (omega arith) (omega arith)

read_message-data_symbol_example : read_message (read_symbol (data_symbol hello)) ≡ some hello
read_message-data_symbol_example = read_message-data_symbol hello (omega arith) (omega arith)
